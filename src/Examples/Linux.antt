-- ===== src/Examples/Linux.antt =====
-- Runs of the Linux programs on a small operating system on which they all succeed.
use mini_isolation_lab.Base.{◌≡◌, refl, ℕ, zero, suc, ◌+◌, false, none, List, [], ◌∷◌, length}
use mini_isolation_lab.Host.{
  Text, Event, called, Segment, Sregs, KvmRun, CapData, Request, RequestReply, Call, Reply, Answer,
  done, exited,
}
use mini_isolation_lab.Host.Format.{chars}
use mini_isolation_lab.Host.Runs.{Os, run, AfterRun, run-Always}
use mini_isolation_lab.Status.Reading.{counting}
use mini_isolation_lab.Host.Paths.{End, watch}
use mini_isolation_lab.Kvm
use mini_isolation_lab.Basics.Syscalls
use mini_isolation_lab.Basics.Memory
use mini_isolation_lab.Basics.Processes
use mini_isolation_lab.Basics.Namespaces
use mini_isolation_lab.Basics.Rootfs
use mini_isolation_lab.Basics.Returned
use mini_isolation_lab.Cgroup
use mini_isolation_lab.Cgroup.Quiet
use mini_isolation_lab.Cgroup.Cleanup
use mini_isolation_lab.Kvm.Api
use mini_isolation_lab.Kvm.Firecracker
use mini_isolation_lab.Kvm.Firecracker.Watch
use mini_isolation_lab.Kvm.Firecracker.Release
use mini_isolation_lab.Kvm.Slots
use mini_isolation_lab.Kvm.Slots.Balance
use mini_isolation_lab.Kvm.Capabilities
use mini_isolation_lab.Kvm.Capabilities.Ready
use mini_isolation_lab.Userns
use mini_isolation_lab.Userns.Entries
use mini_isolation_lab.Userns.Mapping
use mini_isolation_lab.Container
use mini_isolation_lab.Container.Child
use mini_isolation_lab.Container.Parent
use mini_isolation_lab.Caps
use mini_isolation_lab.Caps.Dropped
use mini_isolation_lab.Hardening
use mini_isolation_lab.Hardening.Killed

-- How often the vCPU has run.
abbrev runs_in : List Event → ℕ
runs_in [] = 0
runs_in (called (Call.ioctl fd Request.run) a ∷ vs) = suc (runs_in vs)
runs_in (v ∷ vs) = runs_in vs

abbrev segment : Segment
segment = record { base = 0xffff0000; selector = 0xf000; hidden = 1 }

abbrev sregs : Sregs
sregs = record { cs = segment; ds = segment; es = segment; ss = segment; rest = 0 }

-- The guest first sends two bytes to the debug port, and then halts.
abbrev guest_exit : ℕ → KvmRun
guest_exit zero = record {
  exit_reason = 2;
  direction = 1;
  size = 1;
  port = 0xe9;
  count = 2;
  bytes = λ i. b'h' + i;
  hardware_entry_failure_reason = 0;
  suberror = 0;
}
guest_exit (suc n) = record {
  exit_reason = 5;
  direction = 0;
  size = 0;
  port = 0;
  count = 0;
  bytes = λ i. 0;
  hardware_entry_failure_reason = 0;
  suberror = 0;
}

abbrev kvm_answer : List Event → (request : Request) → RequestReply request
kvm_answer tr Request.run = guest_exit (runs_in tr)
kvm_answer tr Request.get_sregs = sregs
kvm_answer tr Request.get_api_version = 12
kvm_answer tr Request.get_vcpu_mmap_size = 12288
kvm_answer tr _ = 32

abbrev no_caps : CapData
no_caps = record { effective = 0; permitted = 0; inheritable = 0 }

abbrev good_answer : List Event → (c : Call) → Answer (Reply c)
good_answer tr Call.pipe = done (3, 4)
good_answer tr (Call.waitpid pid) = done (pid, exited 0)
good_answer tr (Call.getline file) = done none
good_answer tr (Call.fgets size file) = done none
good_answer tr Call.gethostname = done (chars "host")
good_answer tr Call.capget = done (no_caps, no_caps)
good_answer tr (Call.ioctl fd request) = done (kvm_answer tr request)
good_answer tr (Call.write_fd fd t) = done (length t)
good_answer tr (Call.read_fd fd n) = done n
good_answer tr _ = done 5

abbrev friendly : Os
friendly = record { answer = good_answer; comes_back = λ tr c. false }

abbrev config : Container.ChildConfig
config = record {
  command = chars "/bin/sh";
  argv = chars "/bin/sh" ∷ [];
  rootfs = chars "./rootfs";
  sync_fd = 3;
}

abbrev arguments : List Text
arguments = chars "./rootfs" ∷ chars "/bin/sh" ∷ []

child_main-Isolated_example :
    AfterRun Child.step friendly
      (Child.Isolated config)
      Child.before_release
      (Container.child_main config)
child_main-Isolated_example =
    run-Always Child.step friendly (Child.Isolated config) Child.before_release
      (Container.child_main config) [] 0 (Child.child_main-Isolated config 0)

main-Reported_example : AfterRun Entries.step friendly Mapping.Reported Entries.unmapped Userns.main
main-Reported_example =
    run-Always Entries.step friendly Mapping.Reported Entries.unmapped Userns.main [] 0
      (Mapping.main-Reported 0)

main-Balanced_example : AfterRun Balance.step friendly Balance.Balanced Balance.untouched Slots.main
main-Balanced_example =
    run-Always Balance.step friendly Balance.Balanced Balance.untouched Slots.main [] 0
      (Balance.main-Balanced 0)

main-Collected_example :
    AfterRun Parent.step friendly Parent.Collected Parent.nothing
      (Container.main (chars "mini-container") arguments)
main-Collected_example =
    run-Always Parent.step friendly Parent.Collected Parent.nothing
      (Container.main (chars "mini-container") arguments) [] 0
      (Parent.main-Collected (chars "mini-container") arguments 0)

main-Hardened_example :
    AfterRun (counting Killed.step) friendly (Killed.Hardened 9) Killed.start (Hardening.main 9)
main-Hardened_example =
    run-Always (counting Killed.step) friendly (Killed.Hardened 9) Killed.start (Hardening.main 9)
      [] 0 (Killed.main-Hardened 9 0)

main-Dropped_example :
    AfterRun (counting Dropped.step) friendly (Dropped.Dropped 9) Dropped.start (Caps.main 9)
main-Dropped_example =
    run-Always (counting Dropped.step) friendly (Dropped.Dropped 9) Dropped.start (Caps.main 9) [] 0
      (Dropped.main-Dropped 9 0)

main-Judged_example : AfterRun Ready.step friendly Ready.Judged Ready.unasked Capabilities.main
main-Judged_example =
    run-Always Ready.step friendly Ready.Judged Ready.unasked Capabilities.main [] 0
      (Ready.main-Judged 0)

main-Compared_example : AfterRun Api.step friendly Api.Compared Api.unasked Api.main
main-Compared_example =
    run-Always Api.step friendly Api.Compared Api.unasked Api.main [] 0 (Api.main-Compared 0)

mains-Returned_example :
    AfterRun Returned.step friendly Returned.Returned Returned.nothing Syscalls.main
    × AfterRun Returned.step friendly Returned.Returned Returned.nothing Memory.main
    × AfterRun Returned.step friendly Returned.Returned Returned.nothing Processes.main
    × AfterRun Returned.step friendly Returned.Returned Returned.nothing Namespaces.main
    × AfterRun Returned.step friendly
        (Returned.Entered (chars "./rootfs") (chars "/bin/sh") (chars "/bin/sh" ∷ []))
        Returned.nothing
        (Rootfs.main (chars "chroot_exec") arguments)
mains-Returned_example =
    let all =
      Returned.mains-Returned (chars "chroot_exec") (chars "./rootfs") (chars "/bin/sh") [] 0 in
    (
      run-Always Returned.step friendly Returned.Returned Returned.nothing Syscalls.main [] 0 all.0,
      run-Always Returned.step friendly Returned.Returned Returned.nothing Memory.main [] 0 all.1,
      run-Always Returned.step friendly Returned.Returned Returned.nothing Processes.main [] 0
          all.2,
      run-Always Returned.step friendly Returned.Returned Returned.nothing Namespaces.main [] 0
          all.3,
      run-Always Returned.step friendly
          (Returned.Entered (chars "./rootfs") (chars "/bin/sh") (chars "/bin/sh" ∷ []))
          Returned.nothing (Rootfs.main (chars "chroot_exec") arguments) [] 0 all.4,
    )

-- The friendly run of the virtual machine ends with the halt of its guest, whose bytes are shown.
microvm_run :
    let (tr, e, r) = run friendly (Firecracker.main 2352 4) [] 0 in
    (r ≡ End.returned 0) × ((watch Watch.step Watch.no_vm tr).shown ≡ chars "hi")
unfolding run Firecracker.main Kvm.open_kvm_device Firecracker.create_machine Firecracker.map_run
    Firecracker.start_vcpu Firecracker.setup_real_mode Firecracker.kvm_ioctl Firecracker.run_loop
    Firecracker.handle_exit Firecracker.handle_io_exit Firecracker.put_bytes Firecracker.exit_kind
    Firecracker.release
microvm_run = (refl, refl)
