-- ===== src/Userns/Maps.antt =====
-- What the parent of userns_map.c writes into the maps of the child.
use mini_isolation_lab.Base.{
  ℕ, ==_refl, ◌≡◌, ◌⊎◌, inl, inr, refl, Bool-cases, none, List, [], ◌∷◌, length, ◌==◌,
}
use mini_isolation_lab.Host.{Text, enoent}
use mini_isolation_lab.Host.Format.{chars}
use mini_isolation_lab.Host.Paths.{
  End, Stop, Always, Always-at, Always-weaken, Always-then, Ends, Ends-then, on_answer,
}
use mini_isolation_lab.Userns.{
  write_failed, write_open, die_path, cannot_open, write_text_file, proc_path,
  deny_setgroups_if_available, map_line, map_groups, write_id_maps,
}
use mini_isolation_lab.Userns.Entries.{Seen, step, unmapped, uid_written, gid_written, deny_written}

-- Between two files.
abbrev pub closed : Seen → List (Text × Text) → Seen
closed m entries = record m { target = none; written = entries }

-- A write into the file at a path, or `exit(1)`; the monitor then has the entry.
pub write_text_file-Ends :
    (path value : Text) (m : Seen) (e : ℕ)
    → Always step
        (Ends step (λ u. closed m ((path, value) ∷ m.written)))
        (write_text_file path value)
        m
        e
unfolding write_text_file write_open cannot_open write_failed die_path
write_text_file-Ends path value m e =
    on_answer _ (λ x. refl)
      (λ fd.
        on_answer _ (λ x. λ c. refl)
          (λ n. elim (Bool-cases (n == length value)) [
            | inl whole ↦ rw (whole, ==_refl fd, Always) (on_answer _ (λ x. refl) (λ c. refl))
            | inr short ↦ rw (short, Always) (λ c. refl)
          ]))

-- `deny` is written, or there is no file for it.
abbrev pub Denied : Text → Seen → Seen → ℕ → End (Unit {0}) → Type 0
Denied path m m' e (End.returned u) =
    (m' ≡ closed m ((path, chars "deny\n") ∷ m.written))
    ⊎ (m' ≡ record m { absent = path ∷ m.absent })
Denied path m m' e (End.stopped (Stop.exits n)) = n ≡ 1
Denied path m m' e _ = ⊥

pub deny-Denied :
    (child : ℕ) (m : Seen) (e : ℕ)
    → Always step (Denied (proc_path child "/setgroups") m) (deny_setgroups_if_available child) m e
unfolding deny_setgroups_if_available write_open cannot_open write_failed die_path
deny-Denied child m e =
    on_answer _
      (λ x. elim (Bool-cases (x == enoent)) [
        | inl missing ↦ rw (missing, Always) (inr refl)
        | inr there ↦ rw (there, Always) refl
      ])
      (λ fd.
        on_answer _ (λ x. λ c. refl)
          (λ n. elim (Bool-cases (n == length (chars "deny\n"))) [
            | inl whole ↦ rw (whole, ==_refl fd, Always) (on_answer _ (λ x. refl) (λ c. inl refl))
            | inr short ↦ rw (short, Always) (λ c. refl)
          ]))

-- The ids and the child are known, and nothing is written yet.
abbrev pub fresh : (uid gid token_fd child : ℕ) → Seen
fresh uid gid token_fd child = record unmapped {
  uid = uid;
  gid = gid;
  pipe_end = token_fd;
  child = child;
}

-- There is no file to deny the groups in.
abbrev pub unavailable : Seen → Seen
unavailable m = record m { absent = proc_path m.child "/setgroups" ∷ [] }

-- All the entries stand in the monitor.
abbrev pub Entered : Seen → Seen → ℕ → End (Unit {0}) → Type 0
Entered m m' e (End.returned u) =
    (m' ≡ closed m (gid_written m ∷ deny_written m ∷ uid_written m ∷ []))
    ⊎ (m' ≡ closed (unavailable m) (gid_written m ∷ uid_written m ∷ []))
Entered m m' e (End.stopped (Stop.exits n)) = n ≡ 1
Entered m m' e _ = ⊥

-- The map of the groups, after these entries.
pub map_groups-Ends :
    (m : Seen) (entries : List (Text × Text)) (e : ℕ)
    → Always step
        (Ends step (λ u. closed m (gid_written m ∷ entries)))
        (map_groups m.child m.gid)
        (closed m entries)
        e
unfolding map_groups
map_groups-Ends m entries e =
    Ends-then step (λ u. closed m (gid_written m ∷ entries))
      (Ends step (λ u. closed m (gid_written m ∷ entries)))
      (write_text_file (gid_written m).0 (gid_written m).1) _ (closed m entries) e
      (write_text_file-Ends (gid_written m).0 (gid_written m).1 (closed m entries) e) (λ m' x. refl)
      (λ u x. refl)

pub write_id_maps-Entered :
    (uid gid token_fd child e : ℕ)
    → Always step
        (Entered (fresh uid gid token_fd child))
        (write_id_maps child uid gid)
        (fresh uid gid token_fd child)
        e
unfolding write_id_maps
write_id_maps-Entered uid gid token_fd child e =
    let m : Seen = fresh uid gid token_fd child in
    let m1 : Seen = closed m (uid_written m ∷ []) in
    Ends-then step (λ u. m1) (Entered m)
      (write_text_file (proc_path child "/uid_map") (map_line uid)) _ m e
      (write_text_file-Ends (proc_path child "/uid_map") (map_line uid) m e) (λ m' x. refl)
      (λ u x.
        Always-then step (Denied (proc_path child "/setgroups") m1) (Entered m)
          (deny_setgroups_if_available child) _ m1 x (deny-Denied child m1 x)
          (λ u' m' y q. elim q [
            | inl denied ↦
                let entries : List (Text × Text) = deny_written m ∷ uid_written m ∷ [] in
                Always-at step (Entered m) (map_groups child gid) (closed m entries) m' y denied (
                  Always-weaken step (Ends step (λ u. closed m (gid_written m ∷ entries)))
                    (Entered m) (map_groups child gid) (closed m entries) y (three m)
                    (map_groups-Ends m entries y))
            | inr absent ↦
                let entries : List (Text × Text) = uid_written m ∷ [] in
                let m2 : Seen = unavailable m in
                Always-at step (Entered m) (map_groups child gid) (closed m2 entries) m' y absent (
                  Always-weaken step (Ends step (λ u. closed m2 (gid_written m ∷ entries)))
                    (Entered m) (map_groups child gid) (closed m2 entries) y (two m)
                    (map_groups-Ends m2 entries y))
          ])
          (stops m))
  where
    stops :
        (m : Seen) (r : Stop) (m' : Seen) (y : ℕ)
        → Denied (proc_path child "/setgroups") (closed m (uid_written m ∷ [])) m' y (End.stopped r)
        → Entered m m' y (End.stopped r)
    stops m (Stop.exits n) m' y q = q
    stops m (Stop.exits_now n) m' y q = q
    stops m Stop.gone m' y q = q
    stops m Stop.unfinished m' y q = q

    three :
        (m m' : Seen) (y : ℕ) (r : End (Unit {0}))
        → Ends step (λ u. closed m (gid_written m ∷ deny_written m ∷ uid_written m ∷ [])) m' y r
        → Entered m m' y r
    three m m' y (End.returned u) q = inl q
    three m m' y (End.stopped (Stop.exits n)) q = q
    three m m' y (End.stopped (Stop.exits_now n)) q = q
    three m m' y (End.stopped Stop.gone) q = q
    three m m' y (End.stopped Stop.unfinished) q = q

    two :
        (m m' : Seen) (y : ℕ) (r : End (Unit {0}))
        → Ends step (λ u. closed (unavailable m) (gid_written m ∷ uid_written m ∷ [])) m' y r
        → Entered m m' y r
    two m m' y (End.returned u) q = inr q
    two m m' y (End.stopped (Stop.exits n)) q = q
    two m m' y (End.stopped (Stop.exits_now n)) q = q
    two m m' y (End.stopped Stop.gone) q = q
    two m m' y (End.stopped Stop.unfinished) q = q
