-- ===== src/Payload/Examples.antt =====
-- The payload file on a disk with little room: tests, and a use of the theorem.
use cwnd_warm_up_proxy.Prelude.{
  ◌≡◌, refl, [], none, some, ltb, if◌then◌else◌, min, length, arith, ◌++◌, take,
}
use cwnd_warm_up_proxy.Prelude.Results.{ok}
use cwnd_warm_up_proxy.Protocol.{short_write}
use cwnd_warm_up_proxy.Protocol.Io.{Writer}
use cwnd_warm_up_proxy.Payload.{pattern, wrote, failed, Disk, write_payload_file}
use cwnd_warm_up_proxy.Payload.Repeated.{text, returned, write_payload_file_lem}

abbrev small_file : Writer
small_file = record { accepted = []; room = 50 }

abbrev small_disk : Disk
small_disk = record { mkdir = none; create = ok small_file; sync = none }

test_length : length pattern ≡ 45
test_length = refl

test_fits :
    write_payload_file small_disk 2 48
    ≡ (some (record { accepted = pattern ++ take 3 pattern; room = 2 }), wrote)
unfolding write_payload_file
test_fits = refl

test_full : (write_payload_file small_disk 3 100).1 ≡ failed short_write
unfolding write_payload_file
test_full = refl

write_payload_file_lem_example :
    let t = write_payload_file small_disk 3 100 in
    (made : Writer) × (t.0 ≡ some made)
    × (made.accepted ≡ text (min 50 100))
    × (t.1 ≡ (if ltb 50 100 then failed short_write else returned none))
write_payload_file_lem_example =
    write_payload_file_lem small_disk small_file 3 100 refl refl refl (omega arith)
