-- ===== src/Tests/Words.antt =====
-- The words and the sizes at concrete values.
use go_ublksrv.Base.{◌+◌, ◌≤◌, ◌≡◌, refl, arith, true, some}
use go_ublksrv.UserData.{build_user_data, user_data_to_tag, user_data_to_op, is_target_io}
use go_ublksrv.UserData.Laws.{read-build, build_loses_data}
use go_ublksrv.Dev.Buffers.{ublksrv_queue_cmd_buf_sz, ublksrv_get_iod, cmd_buf_off, cmd_bufs_apart}

commit_word : build_user_data 5 0x21 0 1 ≡ some 0x8000_0000_0021_0005
unfolding build_user_data
commit_word = refl

read-build_example :
    (user_data_to_tag 0x8000_0000_0021_0005 ≡ 5)
    × (user_data_to_op 0x8000_0000_0021_0005 ≡ 0x21)
    × (is_target_io 0x8000_0000_0021_0005 ≡ true)
read-build_example = read-build 5 0x21 0 1 commit_word

build_loses_data_example : build_user_data 5 0x21 0x103 0 ≡ build_user_data 5 0x21 0x3 0
build_loses_data_example =
    build_loses_data 5 0x21 0x103 0x3 0 (omega arith) (omega arith) (omega arith)

cmd_bufs_apart_example :
    (ublksrv_get_iod 127 + 24 ≤ ublksrv_queue_cmd_buf_sz 4096 128)
    × (cmd_buf_off 4096 0 + ublksrv_queue_cmd_buf_sz 4096 128 ≤ cmd_buf_off 4096 3)
cmd_bufs_apart_example =
    cmd_bufs_apart 12 128 0 3 127 (omega arith) (omega arith) (omega arith) (omega arith)
      (omega arith)
