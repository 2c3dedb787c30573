-- ===== src/Host/Runs.antt =====
-- A run of a program with one source of answers.
use mini_isolation_lab.Base.{ℕ, List, [], ◌∷◌, ◌++◌, Bool, true, false, Bool-cases, inl, inr, sym}
use mathlib.Core.Path.{subst}
use mini_isolation_lab.Host.{
  Call, Reply, Answer, Event, Prog, ret, exit, exit_now, call, last, say, get_errno, set_errno,
  out_of_fuel,
}
use mini_isolation_lab.Host.Paths.{End, Stop, errno_after, Always, Post, watch, watch-append}

-- An operating system: what it answers to a call after what has happened, the last event at the end, and
-- whether a call that may not return does.
pub record Os : Type 0 where
  pub answer : List Event → (c : Call) → Answer (Reply c)
  pub comes_back : List Event → Call → Bool

abbrev pub and_event : List Event → Event → List Event
and_event tr v = tr ++ (v ∷ [])

-- What has happened at the end, `errno`, and the end.
unfoldable pub run : {A : Type 0} → Os → Prog A → List Event → ℕ → List Event × ℕ × End A
run os (ret a) tr e = (tr, e, End.returned a)
run os (exit n) tr e = (tr, e, End.stopped (Stop.exits n))
run os (exit_now n) tr e = (tr, e, End.stopped (Stop.exits_now n))
run os (call c k) tr e =
    let a = os.answer tr c in run os (k a) (and_event tr (Event.called c a)) (errno_after e a)
run os (last c k) tr e = elim (os.comes_back tr c) [
  | true ↦
      let a = os.answer tr c in run os (k a) (and_event tr (Event.called c a)) (errno_after e a)
  | false ↦ (and_event tr (Event.entered c), e, (End.stopped Stop.gone))
]
run os (say v p) tr e = run os p (and_event tr v) e
run os (get_errno k) tr e = run os (k e) tr e
run os (set_errno e' p) tr e = run os p tr e'
run os out_of_fuel tr e = (tr, e, (End.stopped Stop.unfinished))

-- The condition at the end of the run from the beginning, with `errno` 0.
abbrev pub AfterRun : {M A : Type 0} (step : M → Event → M) → Os → Post step A → M → Prog A → Type 0
AfterRun step os P start p = let (tr, e, r) = run os p [] 0 in P (watch step start tr) e r

module _ {M : Type 0} (step : M → Event → M) (os : Os) {A : Type 0} (P : Post step A)
    (start : M) where
  abbrev at : List Event → M
  at = watch step start

  stepped :
      (p : Prog A) (tr : List Event) (v : Event) (e : ℕ)
      → Always step P p (step (at tr) v) e
      → Always step P p (at (and_event tr v)) e
  stepped p tr v e = subst (λ m. Always step P p m e) (sym (watch-append step start tr v))

  -- What always holds, holds after every run.
  pub run-Always :
      (p : Prog A) (tr : List Event) (e : ℕ)
      → Always step P p (at tr) e
      → let (tr', e', r) = run os p tr e in P (at tr') e' r
  unfolding run
  run-Always (ret a) tr e h = h
  run-Always (exit n) tr e h = h
  run-Always (exit_now n) tr e h = h
  run-Always (call c k) tr e h =
      let a = os.answer tr c in
      run-Always (k a) (and_event tr (Event.called c a)) (errno_after e a)
        (stepped (k a) tr (Event.called c a) (errno_after e a) (h a))
  run-Always (last c k) tr e h = elim (Bool-cases (os.comes_back tr c)) [
    | inl b ↦
        let a = os.answer tr c in
        rw (b, run)
          (run-Always (k a) (and_event tr (Event.called c a)) (errno_after e a)
            (stepped (k a) tr (Event.called c a) (errno_after e a) (h.1 a)))
    | inr b ↦
        rw (b, run)
          (subst (λ m. P m e (End.stopped Stop.gone))
            (sym (watch-append step start tr (Event.entered c))) h.0)
  ]
  run-Always (say v p) tr e h = run-Always p (and_event tr v) e (stepped p tr v e h)
  run-Always (get_errno k) tr e h = run-Always (k e) tr e h
  run-Always (set_errno e' p) tr e h = run-Always p tr e' h
  run-Always out_of_fuel tr e h = h
