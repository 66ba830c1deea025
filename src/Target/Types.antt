-- ===== src/Target/Types.antt =====
-- The structures of the Go code.
use go_ublksrv.Base.{ℕ, zero, suc, ◌-◌, ◌*◌, ◌^◌, List, [], ◌∷◌, length, take}

abbrev pub type_read : ℕ
type_read = 0

abbrev pub type_write : ℕ
type_write = 1

abbrev pub type_unmap : ℕ
type_unmap = 7

abbrev pub magic_version : ℕ
magic_version = 0x1b01

-- A Go `int` of -1, as its 64-bit pattern.
abbrev pub minus_one : ℕ
minus_one = 2 ^ 64 - 1

-- A slice of bytes: the array from its start on, and its length; the capacity is that of the array.
pub record Slice : Type 0 where
  pub array : List ℕ
  pub len : ℕ

abbrev pub capacity : Slice → ℕ
capacity s = length s.array

abbrev pub bytes : Slice → List ℕ
bytes s = take s.len s.array

-- `type Request struct`. `complete` counts what is in its channel `Complete`, which holds one.
pub record Request : Type 0 where
  pub complete : ℕ
  pub magic_version : ℕ  -- uint16
  pub seq : ℕ  -- uint32
  pub type : ℕ  -- uint32
  pub offset : ℕ  -- int64, as its 64-bit pattern
  pub size : ℕ  -- uint32
  pub rdata : Slice
  pub wdata : Slice
  pub result : ℕ  -- int, as its 64-bit pattern

-- `make([]byte, n)`
unfoldable pub make_bytes : ℕ → List ℕ
make_bytes zero = []
make_bytes (suc n) = 0 ∷ make_bytes n

abbrev pub blocks : ℕ
blocks = 512

-- The message number `i` that `Start` makes.
unfoldable pub new_request : (i : ℕ) → Request
new_request i = record {
  complete = 0;
  magic_version = magic_version;
  seq = i;
  type = 100;
  offset = 0;
  size = 0;
  rdata = record { array = make_bytes (blocks * 1024); len = blocks * 1024 };
  wdata = record { array = []; len = 0 };
  result = 0;
}

-- The messages that `Start` makes, from number `from` on.
unfoldable pub messages : (from count : ℕ) → List Request
messages from zero = []
messages from (suc count) = new_request from ∷ messages (suc from) count
