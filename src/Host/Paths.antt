-- ===== src/Host/Paths.antt =====
-- What holds at the end of every path through a program, whatever the operating system answers. A monitor
-- watches the events of the path: it has a state that each event changes.
use mini_isolation_lab.Base.{
  ℕ, List, [], ◌∷◌, ◌++◌, Bool, true, false, Option, none, some, ◌≡◌, refl, sym,
}
use mathlib.Core.Path.{subst}
use mini_isolation_lab.Host.{
  Reply, Answer, done, failed, Event, Prog, ret, exit, exit_now, call, last, say, get_errno,
  set_errno, out_of_fuel, ◌>>=◌,
}

-- How a path stops without a value: with `exit` or `_exit`, in a call that does not return, or nowhere, when the
-- rounds given to a loop are used up.
pub data Stop : Type 0 where
  exits exits_now : ℕ → Stop
  gone unfinished : Stop

pub data End (A : Type 0) : Type 0 where
  returned : A → End A
  stopped : Stop → End A

-- A call that fails sets `errno`; one that succeeds leaves it.
abbrev pub errno_after : {A : Type 0} → ℕ → Answer A → ℕ
errno_after e (done a) = e
errno_after e (failed e') = e'

-- To split on an answer.
pub on_answer :
    {A : Type 0} (C : Answer A → Type 0)
    → ((x : ℕ) → C (failed x))
    → ((a : A) → C (done a))
    → (a : Answer A) → C a
on_answer C f g (failed x) = f x
on_answer C f g (done a) = g a

pub on_option :
    {A : Type 0} (C : Option A → Type 0) → C none → ((a : A) → C (some a)) → (o : Option A) → C o
on_option C f g none = f
on_option C f g (some a) = g a

pub on_bool : (C : Bool → Type 0) → C true → C false → (b : Bool) → C b
on_bool C f g true = f
on_bool C f g false = g

module _ {M : Type 0} (step : M → Event → M) where
  -- A condition on the monitor's state, on `errno` and on how the path ends.
  abbrev pub Post : Type 0 → Type 1
  Post A = M → ℕ → End A → Type 0

  abbrev pub Always : {A : Type 0} → Post A → Prog A → M → ℕ → Type 0
  Always P (ret a) m e = P m e (End.returned a)
  Always P (exit n) m e = P m e (End.stopped (Stop.exits n))
  Always P (exit_now n) m e = P m e (End.stopped (Stop.exits_now n))
  Always P (call c k) m e =
      (a : Answer (Reply c)) → Always P (k a) (step m (Event.called c a)) (errno_after e a)
  Always P (last c k) m e =
      P (step m (Event.entered c)) e (End.stopped Stop.gone)
      × ((a : Answer (Reply c)) → Always P (k a) (step m (Event.called c a)) (errno_after e a))
  Always P (say v p) m e = Always P p (step m v) e
  Always P (get_errno k) m e = Always P (k e) m e
  Always P (set_errno e' p) m e = Always P p m e'
  Always P out_of_fuel m e = P m e (End.stopped Stop.unfinished)

  -- What must hold after the first of two programs: at its value, the second one's.
  abbrev pub Then : {A B : Type 0} → Post B → (A → Prog B) → Post A
  Then P f m e (End.returned a) = Always P (f a) m e
  Then P f m e (End.stopped r) = P m e (End.stopped r)

  pub Always-bind :
      {A B : Type 0} (P : Post B) (p : Prog A) (f : A → Prog B) (m : M) (e : ℕ)
      → Always (Then P f) p m e
      → Always P (p >>= f) m e
  Always-bind P (ret a) f m e h = h
  Always-bind P (exit n) f m e h = h
  Always-bind P (exit_now n) f m e h = h
  Always-bind P (call c k) f m e h =
      λ a. Always-bind P (k a) f (step m (Event.called c a)) (errno_after e a) (h a)
  Always-bind P (last c k) f m e h =
      (h.0, λ a. Always-bind P (k a) f (step m (Event.called c a)) (errno_after e a) (h.1 a))
  Always-bind P (say v p) f m e h = Always-bind P p f (step m v) e h
  Always-bind P (get_errno k) f m e h = Always-bind P (k e) f m e h
  Always-bind P (set_errno e' p) f m e h = Always-bind P p f m e' h
  Always-bind P out_of_fuel f m e h = h

  pub Always-weaken :
      {A : Type 0} (P Q : Post A) (p : Prog A) (m : M) (e : ℕ)
      → ((m : M) (e : ℕ) (r : End A) → P m e r → Q m e r)
      → Always P p m e
      → Always Q p m e
  Always-weaken P Q (ret a) m e w h = w m e (End.returned a) h
  Always-weaken P Q (exit n) m e w h = w m e (End.stopped (Stop.exits n)) h
  Always-weaken P Q (exit_now n) m e w h = w m e (End.stopped (Stop.exits_now n)) h
  Always-weaken P Q (call c k) m e w h =
      λ a. Always-weaken P Q (k a) (step m (Event.called c a)) (errno_after e a) w (h a)
  Always-weaken P Q (last c k) m e w h = (
    w (step m (Event.entered c)) e (End.stopped Stop.gone) h.0,
    λ a. Always-weaken P Q (k a) (step m (Event.called c a)) (errno_after e a) w (h.1 a),
  )
  Always-weaken P Q (say v p) m e w h = Always-weaken P Q p (step m v) e w h
  Always-weaken P Q (get_errno k) m e w h = Always-weaken P Q (k e) m e w h
  Always-weaken P Q (set_errno e' p) m e w h = Always-weaken P Q p m e' w h
  Always-weaken P Q out_of_fuel m e w h = w m e (End.stopped Stop.unfinished) h

  pub Always-at :
      {A : Type 0} (P : Post A) (p : Prog A) (m m' : M) (e : ℕ)
      → m' ≡ m
      → Always P p m e
      → Always P p m' e
  Always-at P p m m' e same = subst (λ x. Always P p x e) (sym same)

  -- The program returns, with the monitor at this state.
  abbrev pub Quiet : {A : Type 0} → M → Post A
  Quiet m m' e (End.returned a) = m' ≡ m
  Quiet m m' e _ = ⊥

  -- A program that ends at a known state of the monitor, before another.
  pub Quiet-then :
      {A B : Type 0} (P : Post B) (p : Prog A) (f : A → Prog B) (m m' : M) (e : ℕ)
      → Always (Quiet m') p m e
      → ((a : A) (e' : ℕ) → Always P (f a) m' e')
      → Always P (p >>= f) m e
  Quiet-then {A} P p f m m' e quiet next =
      Always-bind P p f m e (Always-weaken (Quiet m') (Then P f) p m e settle quiet)
    where
      settle : (x : M) (e' : ℕ) (r : End A) → Quiet m' x e' r → Then P f x e' r
      settle x e' (End.returned a) same = subst (λ y. Always P (f a) y e') (sym same) (next a e')
      settle x e' (End.stopped r) bad = absurd bad

  -- A program with a known condition at its end, before another.
  pub Always-then :
      {A B : Type 0} (Q : Post A) (P : Post B) (p : Prog A) (f : A → Prog B) (m : M) (e : ℕ)
      → Always Q p m e
      → ((a : A) (m' : M) (e' : ℕ) → Q m' e' (End.returned a) → Always P (f a) m' e')
      → ((r : Stop) (m' : M) (e' : ℕ) → Q m' e' (End.stopped r) → P m' e' (End.stopped r))
      → Always P (p >>= f) m e
  Always-then {A} Q P p f m e first values stops =
      Always-bind P p f m e (Always-weaken Q (Then P f) p m e settle first)
    where
      settle : (x : M) (e' : ℕ) (r : End A) → Q x e' r → Then P f x e' r
      settle x e' (End.returned a) q = values a x e' q
      settle x e' (End.stopped r) q = stops r x e' q

  -- The program returns, with the monitor at this state for its value, or it ends with `exit(1)`.
  abbrev pub Ends : {A : Type 0} → (A → M) → Post A
  Ends g m' e (End.returned a) = m' ≡ g a
  Ends g m' e (End.stopped (Stop.exits n)) = n ≡ 1
  Ends g m' e _ = ⊥

  pub Ends-then :
      {A B : Type 0} (g : A → M) (P : Post B) (p : Prog A) (f : A → Prog B) (m : M) (e : ℕ)
      → Always (Ends g) p m e
      → ((m' : M) (e' : ℕ) → P m' e' (End.stopped (Stop.exits 1)))
      → ((a : A) (e' : ℕ) → Always P (f a) (g a) e')
      → Always P (p >>= f) m e
  Ends-then {A} g P p f m e first dies goes =
      Always-then (Ends g) P p f m e first
        (λ a m' e' same. subst (λ y. Always P (f a) y e') (sym same) (goes a e')) stops
    where
      stops : (r : Stop) (m' : M) (e' : ℕ) → Ends g m' e' (End.stopped r) → P m' e' (End.stopped r)
      stops (Stop.exits n) m' e' one =
          subst (λ k. P m' e' (End.stopped (Stop.exits k))) (sym one) (dies m' e')
      stops (Stop.exits_now n) m' e' bad = absurd bad
      stops Stop.gone m' e' bad = absurd bad
      stops Stop.unfinished m' e' bad = absurd bad

  abbrev pub watch : M → List Event → M
  watch m [] = m
  watch m (v ∷ vs) = watch (step m v) vs

  pub watch-append :
      (m : M) (vs : List Event) (v : Event) → watch m (vs ++ (v ∷ [])) ≡ step (watch m vs) v
  watch-append m [] v = refl
  watch-append m (x ∷ vs) v = watch-append (step m x) vs v
