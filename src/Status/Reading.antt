-- ===== src/Status/Reading.antt =====
-- The printing of status lines, for monitors that count the lines and leave the rest alone.
use Prim.Native.String.{String}
use mathlib.Core.Path.{subst}
use mini_isolation_lab.Base.{
  ℕ, zero, suc, ◌+◌, ◌≤◌, ◌≡◌, refl, sym, arith, Bool-cases, inl, inr, some,
}
use mini_isolation_lab.Host.{Text, Event, called, out, err, Call, done, Prog, ◌>>=◌}
use mini_isolation_lab.Host.Format.{chars}
use mini_isolation_lab.Host.Paths.{End, Stop, Post, Always, Always-then, on_answer, on_option}
use mini_isolation_lab.Status.{starts_with, on_line, read_lines, print_status_field}

-- The lines read so far, and what another monitor sees.
pub record Counted (A : Type 0) : Type 0 where
  pub lines : ℕ
  pub seen : A

module _ {A : Type 0} (step : A → Event → A) where
  -- The other monitor does not see the reading and the printing.
  abbrev pub counting : Counted A → Event → Counted A
  counting m (called (Call.getline file) (done (some line))) = record m { lines = m.lines + 1 }
  counting m (called (Call.getline file) a) = m
  counting m (called (Call.fopen path) a) = m
  counting m (called (Call.fclose file) a) = m
  counting m (out ps) = m
  counting m (err ps) = m
  counting m v = record m { seen = step m.seen v }

  -- The program returns and the other monitor is as it was; or it has read this many lines and more, and reads on.
  abbrev pub Reads : ℕ → A → {B : Type 0} → Counted A → ℕ → End B → Type 0
  Reads fuel a m e (End.returned u) = (n : ℕ) × (m ≡ record { lines = n; seen = a })
  Reads fuel a m e (End.stopped Stop.unfinished) = (fuel ≤ m.lines) × (m.seen ≡ a)
  Reads fuel a m e _ = ⊥

  abbrev at : ℕ → A → Counted A
  at n a = record { lines = n; seen = a }

  -- Rounds that are left at a number of lines.
  read_lines-Reads :
      (fuel k n : ℕ) (label : String) (field : Text) (file : ℕ) (a : A) (e : ℕ)
      → fuel ≤ k + n
      → Always counting (Reads fuel a) (read_lines k label field file) (at n a) e
  unfolding read_lines on_line
  read_lines-Reads fuel zero n label field file a e enough = (omega (arith, enough), refl)
  read_lines-Reads fuel (suc k) n label field file a e enough =
      on_answer _ (λ x. (n, refl))
        (on_option _ (n, refl)
          (λ line. elim (Bool-cases (starts_with field line)) [
            | inl found ↦ rw (found, Always) (n + 1, refl)
            | inr other ↦
                rw (other, Always)
                  (read_lines-Reads fuel k (n + 1) label field file a e (omega (arith, enough)))
          ]))

  pub Reads-then :
      {B C : Type 0} (fuel : ℕ) (a : A) (P : Post counting C) (p : Prog B) (f : B → Prog C)
      (m : Counted A) (e : ℕ)
      → Always counting (Reads fuel a) p m e
      → ((m' : Counted A) (e' : ℕ)
          → fuel ≤ m'.lines
          → m'.seen ≡ a
          → P m' e' (End.stopped Stop.unfinished))
      → ((u : B) (n e' : ℕ) → Always counting P (f u) (at n a) e')
      → Always counting P (p >>= f) m e
  Reads-then {B} fuel a P p f m e first stops goes =
      Always-then counting (Reads fuel a) P p f m e first
        (λ u m' e' q. subst (λ x. Always counting P (f u) x e') (sym q.1) (goes u q.0 e')) stopped
    where
      stopped :
          (r : Stop) (m' : Counted A) (e' : ℕ)
          → Reads fuel a {B = B} m' e' (End.stopped r)
          → P m' e' (End.stopped r)
      stopped Stop.unfinished m' e' q = stops m' e' q.0 q.1
      stopped Stop.gone m' e' q = absurd q
      stopped (Stop.exits n) m' e' q = absurd q
      stopped (Stop.exits_now n) m' e' q = absurd q

  pub print_status_field-Reads :
      (fuel n : ℕ) (label field : String) (a : A) (e : ℕ)
      → Always counting (Reads fuel a) (print_status_field fuel label field) (at n a) e
  unfolding print_status_field
  print_status_field-Reads fuel n label field a e =
      on_answer _ (λ x. (n, refl))
        (λ file.
          Reads-then fuel a (Reads fuel a) (read_lines fuel label (chars field) file) _ (at n a) e
            (read_lines-Reads fuel fuel n label (chars field) file a e (omega arith))
            (λ m' e' long same. (long, same)) (λ u n' e'. λ closed. (n', refl)))

  -- A field, before the rest of the program.
  pub field-then :
      {C : Type 0} (P : Post counting C) (f : Unit {0} → Prog C) (fuel n : ℕ) (label field : String)
      (a : A) (e : ℕ)
      → ((m' : Counted A) (e' : ℕ)
          → fuel ≤ m'.lines
          → m'.seen ≡ a
          → P m' e' (End.stopped Stop.unfinished))
      → ((n' e' : ℕ) → Always counting P (f tt) (at n' a) e')
      → Always counting P (print_status_field fuel label field >>= f) (at n a) e
  field-then P f fuel n label field a e stops goes =
      Reads-then fuel a P (print_status_field fuel label field) f (at n a) e
        (print_status_field-Reads fuel n label field a e) stops (λ u n' e'. goes n' e')
