-- ===== src/Host/Resources.antt =====
-- What the monitors of the programs keep: open files, blocks and mappings that are taken off a list again.
use mini_isolation_lab.Base.{ℕ, Bool, ◌≡◌, refl, ==_refl, List, [], ◌∷◌, ◌==◌, ◌&&◌, if◌then◌else◌}

-- Without the first element of the list that is such.
abbrev pub without : {A : Type 0} → (A → Bool) → List A → List A
without p [] = []
without p (y ∷ ys) = if p y then ys else y ∷ without p ys

abbrev pub is_map : ℕ × ℕ → ℕ × ℕ → Bool
is_map x y = (x.0 == y.0) && (x.1 == y.1)

pub released-maps : (a b : ℕ × ℕ) → without (is_map b) (without (is_map a) (a ∷ b ∷ [])) ≡ []
released-maps a b = rw (==_refl a.0, ==_refl a.1, ==_refl b.0, ==_refl b.1) refl

pub alone : (n : ℕ) → without (λ y. n == y) (n ∷ []) ≡ []
alone n = rw (==_refl n) refl

pub alone-map : (x : ℕ × ℕ) → without (is_map x) (x ∷ []) ≡ []
alone-map x = rw (==_refl x.0, ==_refl x.1) refl
