-- ===== src/Queue/Flags.antt =====
-- The flag words and command numbers of ublkhelper.h.
use go_ublksrv.Base.{ℕ}

abbrev pub ublksrv_need_fetch_rq : ℕ
ublksrv_need_fetch_rq = 1

abbrev pub ublksrv_need_commit_rq_comp : ℕ
ublksrv_need_commit_rq_comp = 2

abbrev pub ublksrv_io_free : ℕ
ublksrv_io_free = 4

abbrev pub ublksrv_need_get_data : ℕ
ublksrv_need_get_data = 8

abbrev pub ublksrv_queue_stopping : ℕ
ublksrv_queue_stopping = 1

abbrev pub ublksrv_queue_idle : ℕ
ublksrv_queue_idle = 2

abbrev pub ublksrv_queue_ioctl_op : ℕ
ublksrv_queue_ioctl_op = 4

abbrev pub ublksrv_user_copy : ℕ
ublksrv_user_copy = 8

abbrev pub ublk_io_fetch_req : ℕ
ublk_io_fetch_req = 0x20

abbrev pub ublk_io_commit_and_fetch_req : ℕ
ublk_io_commit_and_fetch_req = 0x21

abbrev pub ublk_io_need_get_data : ℕ
ublk_io_need_get_data = 0x22

abbrev pub ublk_io_res_ok : ℕ
ublk_io_res_ok = 0

abbrev pub ublk_io_res_need_get_data : ℕ
ublk_io_res_need_get_data = 1

-- -ENODEV
abbrev pub ublk_io_res_abort : ℕ
ublk_io_res_abort = 0xffff_ffed
