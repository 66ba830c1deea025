-- ===== src/Host.antt =====
-- The byte order functions of <endian.h>, and the private header of the target code,
-- ublksrv_tgt_endian.h, which renames them.
use go_ublksrv.Base.{ℕ, ◌≡◌, ◌^◌, ◌<◌}

-- `htole16` to `htole64`, `le16toh` to `le64toh`, and the same for big-endian words.
pub record Host : Type 0 where
  pub htole16 : ℕ → ℕ
  pub htole32 : ℕ → ℕ
  pub htole64 : ℕ → ℕ
  pub le16toh : ℕ → ℕ
  pub le32toh : ℕ → ℕ
  pub le64toh : ℕ → ℕ
  pub htobe16 : ℕ → ℕ
  pub htobe32 : ℕ → ℕ
  pub htobe64 : ℕ → ℕ
  pub be16toh : ℕ → ℕ
  pub be32toh : ℕ → ℕ
  pub be64toh : ℕ → ℕ

-- What <endian.h> promises on every machine: the two directions undo one another.
pub record IsHost (h : Host) : Type 0 where
  pub undo16 : (n : ℕ) → n < 2 ^ 16 → h.le16toh (h.htole16 n) ≡ n
  pub undo32 : (n : ℕ) → n < 2 ^ 32 → h.le32toh (h.htole32 n) ≡ n
  pub undo64 : (n : ℕ) → n < 2 ^ 64 → h.le64toh (h.htole64 n) ≡ n

-- The functions that `HOST_CONVERT` makes.
module _ ⦃h : Host⦄ where
  unfoldable pub be16_to_cpu : ℕ → ℕ
  be16_to_cpu v = h.be16toh v

  unfoldable pub cpu_to_be16 : ℕ → ℕ
  cpu_to_be16 v = h.htobe16 v

  unfoldable pub be32_to_cpu : ℕ → ℕ
  be32_to_cpu v = h.be32toh v

  unfoldable pub cpu_to_be32 : ℕ → ℕ
  cpu_to_be32 v = h.htobe32 v

  unfoldable pub be64_to_cpu : ℕ → ℕ
  be64_to_cpu v = h.be64toh v

  unfoldable pub cpu_to_be64 : ℕ → ℕ
  cpu_to_be64 v = h.htobe64 v

  unfoldable pub le16_to_cpu : ℕ → ℕ
  le16_to_cpu v = h.le16toh v

  unfoldable pub cpu_to_le16 : ℕ → ℕ
  cpu_to_le16 v = h.htole16 v

  unfoldable pub le32_to_cpu : ℕ → ℕ
  le32_to_cpu v = h.le32toh v

  unfoldable pub cpu_to_le32 : ℕ → ℕ
  cpu_to_le32 v = h.htole32 v

  unfoldable pub le64_to_cpu : ℕ → ℕ
  le64_to_cpu v = h.le64toh v

  unfoldable pub cpu_to_le64 : ℕ → ℕ
  cpu_to_le64 v = h.htole64 v
