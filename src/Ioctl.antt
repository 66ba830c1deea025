-- ===== src/Ioctl.antt =====
-- The command encoding of <linux/ioctl.h>, which the code calls and does not define: an instance
-- argument of the definitions that use it.
use go_ublksrv.Base.{ℕ, ◌<◌, ◌≡◌}

-- `_IOR`, `_IOWR` with their type, number and size; `_IOC_NR`, `_IOC_TYPE`, `_IOC_DIR`, `_IOC_SIZE`.
pub record Ioctl : Type 0 where
  pub ior : (type nr size : ℕ) → ℕ
  pub iowr : (type nr size : ℕ) → ℕ
  pub ioc_nr : ℕ → ℕ
  pub ioc_type : ℕ → ℕ
  pub ioc_dir : ℕ → ℕ
  pub ioc_size : ℕ → ℕ

-- What the code relies on: the number of an encoded command can be read back, and a legacy command
-- is its own number, with the other three fields zero.
pub record IsIoctl (m : Ioctl) : Type 0 where
  pub nr_of_ior : (type nr size : ℕ) → nr < 256 → m.ioc_nr (m.ior type nr size) ≡ nr
  pub nr_of_iowr : (type nr size : ℕ) → nr < 256 → m.ioc_nr (m.iowr type nr size) ≡ nr
  pub nr_of_legacy : (nr : ℕ) → nr < 256 → m.ioc_nr nr ≡ nr
  pub type_of_legacy : (nr : ℕ) → nr < 256 → m.ioc_type nr ≡ 0
  pub dir_of_legacy : (nr : ℕ) → nr < 256 → m.ioc_dir nr ≡ 0
  pub size_of_legacy : (nr : ℕ) → nr < 256 → m.ioc_size nr ≡ 0
