-- ===== src/Examples/Kernel.antt =====
-- The library, the console and the file system on the small machine.
use mini_isolation_lab.Base.{ℕ, true, false, ◌++◌, ◌≡◌, inr, refl, arith, some, none, [], ◌∷◌, map}
use mini_isolation_lab.Fs.{kfs_stat}
use mini_isolation_lab.Fs.Handles.{kfs_stat-found}
use mini_isolation_lab.Panic.{kassert}
use mini_isolation_lab.Panic.Halts.{kassert-halts}
use mini_isolation_lab.Machine.{ok, halted, with_mem}
use mini_isolation_lab.Machine.Memory.{overlay, peek}
use mini_isolation_lab.Console.{klog_write}
use mini_isolation_lab.Console.Output.{sent, Emits, serial, crlf, klog_write-Emits}
use mini_isolation_lab.Fs.{
  KfsError, kfs_lookup, kfs_open, kfs_read_node, kfs_read, kfs_stat_node, stat_bytes, mode_file,
  node_is_valid,
}
use mini_isolation_lab.Fs.Catalog.{find}
use mini_isolation_lab.Fs.Lookup.{kfs_lookup-find}
use mini_isolation_lab.Fs.Read.{kfs_read_node-readable}
use mini_isolation_lab.Fs.Handles.{kfs_open-found, kfs_read-readable}
use mini_isolation_lab.Fs.Stat.{Described, kfs_stat_node-fields}
use mini_isolation_lab.Examples.World.{
  bytes, motd, catalog, machine, bytes-Room, machine-IsMounted, machine-IsResponsive,
}

klog_write-Emits_example : Emits machine (map serial (crlf (b'm' ∷ []))) (klog_write 10 machine)
klog_write-Emits_example =
    klog_write-Emits 10 (b'm' ∷ []) machine (λ e. omega (arith, e))
      (refl, (λ e. omega (arith, e)), refl) (omega arith) machine-IsResponsive

kfs_lookup-find_example : kfs_lookup 1000 1 machine ≡ ok (some motd) machine
unfolding peek find node_is_valid
kfs_lookup-find_example =
    kfs_lookup-find catalog 1000 1 machine machine-IsMounted (λ e. omega (arith, e))
      (bytes-Room 1000 1 (omega arith))

kfs_read_node-readable_example :
    kfs_read_node (some motd) 1 3000 9 machine
    ≡ ok 2 (with_mem machine (overlay bytes 3000 (peek bytes 21 2)))
unfolding node_is_valid
kfs_read_node-readable_example =
    kfs_read_node-readable motd 1 3000 9 machine (λ v. bytes-Room 20 3 (omega arith))
      (λ some_bytes e. omega (arith, e)) (bytes-Room 3000 2 (omega arith))
      (λ a l u. inr (omega arith))

kfs_open-found_example :
    kfs_open 10 (some (record { node = none; offset = 5 })) machine
    ≡ ok (KfsError.success, some (record { node = some motd; offset = 0 })) machine
unfolding find node_is_valid
kfs_open-found_example =
    kfs_open-found catalog 10 (b'm' ∷ []) (record { node = none; offset = 5 }) machine
      machine-IsMounted (λ e. omega (arith, e)) (refl, (λ e. omega (arith, e)), refl) (omega arith)

kfs_read-readable_example :
    kfs_read (some (record { node = some motd; offset = 1 })) 3000 9 (some 0) machine
    ≡ ok
        (KfsError.success, some (record { node = some motd; offset = 3 }), some 2)
        (with_mem machine (overlay bytes 3000 (peek bytes 21 2)))
unfolding node_is_valid
kfs_read-readable_example =
    kfs_read-readable motd 1 3000 9 (some 0) machine refl (λ v. bytes-Room 20 3 (omega arith))
      (λ e. omega (arith, e)) (bytes-Room 3000 2 (omega arith)) (λ a l u. inr (omega arith))

kfs_stat_node-fields_example :
    Described true motd 3000 machine (kfs_stat_node (some motd) 3000 machine)
unfolding node_is_valid
kfs_stat_node-fields_example =
    kfs_stat_node-fields motd 3000 machine (omega arith) (omega arith)
      (bytes-Room 3000 13 (omega arith))

kassert-halts_example :
    (n : ℕ) × (kassert (record { prefix_at = 10; null_at = 12 }) 0 false machine
      ≡ halted (
          sent machine
            (map serial (crlf (b'm' ∷ []))
              ++ (map serial (crlf []) ++ map serial (crlf (b'\n' ∷ []))))
            n))
kassert-halts_example =
    kassert-halts (record { prefix_at = 10; null_at = 12 }) 0 false (b'm' ∷ []) [] machine
      (record {
        there = λ e. omega (arith, e);
        string = (refl, (λ e. omega (arith, e)), refl);
        short = omega arith;
      })
      (record { there = λ e. omega (arith, e); string = refl; short = omega arith })
      machine-IsResponsive

kfs_stat-found_example :
    kfs_stat 10 3000 machine
    ≡ ok KfsError.success (with_mem machine (overlay bytes 3000 (stat_bytes 3 mode_file 1)))
unfolding find node_is_valid
kfs_stat-found_example =
    kfs_stat-found catalog 10 3000 (b'm' ∷ []) machine machine-IsMounted (λ e. omega (arith, e))
      (refl, (λ e. omega (arith, e)), refl) (omega arith) (λ e. omega (arith, e))
      (bytes-Room 3000 13 (omega arith))
