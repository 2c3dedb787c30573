-- ===== src/User/InitProgram.antt =====
-- The data of the init program, the second half of mini-kernel/kernel/user.c. Where the arrays and the string
-- stand in memory is up to the linker: their addresses are parameters.
use mini_isolation_lab.Base.{ℕ, ◌-◌, some, List, [], ◌∷◌, ◌++◌, length, replicate}
use mini_isolation_lab.Machine.{Addr, KfsNode}
use mini_isolation_lab.Fs.{mode_file}
use mini_isolation_lab.User.{KuserOp, KuserProgram, op_write, op_open, op_read, op_close, op_exit}

abbrev init_message : List ℕ
init_message =
    b'i' ∷ b'n' ∷ b'i' ∷ b't' ∷ b':' ∷ b' ' ∷ b'u' ∷ b's' ∷ b'e' ∷ b'r' ∷ b's' ∷ b'p' ∷ b'a' ∷ b'c'
    ∷ b'e' ∷ b' ' ∷ b'o' ∷ b'n' ∷ b'l' ∷ b'i' ∷ b'n' ∷ b'e' ∷ b'\n' ∷ 0 ∷ []

abbrev pub init_path : List ℕ
init_path = b'/' ∷ b'e' ∷ b't' ∷ b'c' ∷ b'/' ∷ b'm' ∷ b'o' ∷ b't' ∷ b'd' ∷ []

-- The array holds the literal's terminator too.
abbrev pub init_memory : List ℕ
init_memory = init_message ++ (init_path ++ (0 ∷ (replicate 32 0 ++ (0 ∷ []))))

abbrev pub init_motd : List ℕ
init_motd =
    b'm' ∷ b'o' ∷ b't' ∷ b'd' ∷ b':' ∷ b' ' ∷ b'h' ∷ b'e' ∷ b'l' ∷ b'l' ∷ b'o' ∷ b' ' ∷ b'f' ∷ b'r'
    ∷ b'o' ∷ b'm' ∷ b' ' ∷ b't' ∷ b'h' ∷ b'e' ∷ b' ' ∷ b'i' ∷ b'n' ∷ b'-' ∷ b'm' ∷ b'e' ∷ b'm'
    ∷ b'o' ∷ b'r' ∷ b'y' ∷ b' ' ∷ b'f' ∷ b'i' ∷ b'l' ∷ b'e' ∷ b's' ∷ b'y' ∷ b's' ∷ b't' ∷ b'e'
    ∷ b'm' ∷ b'\n' ∷ 0 ∷ []

abbrev init_msg_off : ℕ
init_msg_off = 0

abbrev init_msg_len : ℕ
init_msg_len = 23

abbrev init_path_off : ℕ
init_path_off = 24

abbrev init_path_len : ℕ
init_path_len = 9

abbrev init_buffer_off : ℕ
init_buffer_off = 34

abbrev init_buffer_len : ℕ
init_buffer_len = 40

-- The addresses of `init_memory`, `init_motd` and the literal `"/etc/motd"`.
pub record InitPlaces : Type 0 where
  pub memory_at : Addr
  pub motd_at : Addr
  pub path_at : Addr

abbrev pub init_fs : InitPlaces → List KfsNode
init_fs at =
    record { path = at.path_at; bytes = at.motd_at; size = length init_motd - 1; mode = mode_file }
    ∷ []

-- An operation whose other fields are 0.
abbrev init_op : (opcode offset len : ℕ) → KuserOp
init_op opcode offset len = record {
  opcode = opcode;
  fd_slot = 0;
  offset = offset;
  len = len;
  aux_offset = 0;
  aux_len = 0;
  exit_status = 0;
}

abbrev pub init_ops : List KuserOp
init_ops =
    init_op op_write init_msg_off init_msg_len
    ∷ init_op op_open init_path_off init_path_len
    ∷ init_op op_read init_buffer_off init_buffer_len
    ∷ init_op op_write init_buffer_off init_buffer_len
    ∷ init_op op_close 0 0
    ∷ init_op op_exit 0 0
    ∷ []

-- `kuser_init_program`: a pointer to the program.
abbrev pub init_program : InitPlaces → KuserProgram
init_program at = record {
  initial_memory = at.memory_at;
  initial_memory_len = length init_memory;
  ops = some init_ops;
  op_count = length init_ops;
  fs_nodes = some (init_fs at);
  fs_node_count = length (init_fs at);
}
