-- ===== src/Entity/Redis/Lock/Examples.antt =====
-- Runs of the locks of wakuwaku-entity/src/redis/collection/lock.rs, with commands that are the documented ones.
use wakuwaku.Base.{none, ◌≡◌, refl, some, arith}
use wakuwaku.Entity.Redis.{millis}
use wakuwaku.Entity.Redis.Lock.{
  run_op, try_read, try_write, extend_read, release_read, read_acquire, read_extend, extend_read_of,
  write_acquire, prolong,
}
use wakuwaku.Entity.Redis.Lock.Documented.{View, documented, nothing, Behaves}
use wakuwaku.Entity.Redis.Lock.Runs.{Run, start, after}
use wakuwaku.Entity.Redis.Lock.Apart.{Shared, writer-Apart}
use wakuwaku.Entity.Redis.Lock.Reader.{renewed}
use wakuwaku.Entity.Redis.Lock.Leases.{ReaderHolds, lease-ReaderHolds}
use wakuwaku.Entity.Redis.Lock.Writer.{written}
use wakuwaku.Entity.Redis.Lock.Holding.{Holds, lease-Holds}

documented-Behaves : Behaves documented (λ (v : View). v)
documented-Behaves = record {
  get_is = λ now s. refl;
  set_nx_is = λ now token ttl s. refl;
  del_is = λ now s t q. refl;
  pexpire_is = λ now ttl s. refl;
  zremrangebyscore_is = λ now upto s. refl;
  zcard_is = λ now s. refl;
  zscore_is = λ now t s. refl;
  zadd_is = λ now e t s. refl;
  zadd_xx_is = λ now e t s. refl;
  zrem_is = λ now t s. refl;
  pttl_is = λ now s. refl;
  zexpire_is = λ now ttl s. refl;
}

-- Two readers, 1 and 2, come at 100 and 110, and stay for 50 and for 20 milliseconds.
abbrev one_reader : View
one_reader = (run_op documented 100 (try_read 1 50000000) nothing).0

abbrev two_readers : View
two_readers = (run_op documented 110 (try_read 2 20000000) one_reader).0

-- The writer 3 is refused at 120, and gets the lock at 150.
abbrev refused : View
refused = (run_op documented 120 (try_write 3 40000000) two_readers).0

abbrev writing : View
writing = (run_op documented 150 (try_write 3 40000000) refused).0

reading : Run documented Shared 100 nothing 110 two_readers
reading =
    after 100 one_reader 110 (try_read 2 20000000)
      (after 100 nothing 100 (try_read 1 50000000) start (omega arith) refl) (omega arith) refl

until_writer : Run documented Shared 100 nothing 150 writing
until_writer =
    after 120 refused 150 (try_write 3 40000000)
      (after 110 two_readers 120 (try_write 3 40000000) reading (omega arith) refl) (omega arith)
      refl

write_granted : (run_op documented 150 (try_write 3 40000000) refused).1 ≡ 1
unfolding millis run_op write_acquire read_acquire prolong
write_granted = refl

writer_there : documented.get 180 writing ≡ some 3
unfolding millis run_op write_acquire read_acquire prolong
writer_there = refl

writer-Apart_example : documented.zscore 180 1 writing ≡ none
writer-Apart_example =
    writer-Apart documented (λ v. v) documented-Behaves 100 nothing 150 writing refl until_writer
      180 3 1 (omega arith) writer_there

-- Reader 1 asks again at 160, and the writer 4 at 170, before the writer 3 has extended its lease.
lease-Holds_example :
    Holds documented 185 3
      (run_op documented 170
        (try_write 4 40000000)
        (run_op documented 160 (try_read 1 50000000) writing).0).0
unfolding millis
lease-Holds_example =
    lease-Holds documented (λ v. v) documented-Behaves refused 3 40000000 150 (try_write 3 40000000)
      written write_granted 170 _
      (after 160 (run_op documented 160 (try_read 1 50000000) writing).0 170 (try_write 4 40000000)
        (after 150 writing 160 (try_read 1 50000000) start (omega arith) (omega arith))
        (omega arith) (omega arith))
      185 (omega arith) (omega arith)

abbrev renewing : View
renewing = (run_op documented 125 (extend_read 2 60000000) two_readers).0

renewal_granted : (run_op documented 125 (extend_read 2 60000000) two_readers).1 ≡ 1
unfolding millis run_op read_acquire prolong read_extend extend_read_of
renewal_granted = refl

-- Reader 2 renews its lease at 125; reader 1 is gone when the writer 3 comes.
lease-ReaderHolds_example :
    ReaderHolds documented 184 2 185
      (run_op documented 150
        (try_write 3 40000000)
        (run_op documented 140 (release_read 1) renewing).0).0
unfolding millis
lease-ReaderHolds_example =
    lease-ReaderHolds documented (λ v. v) documented-Behaves 100 nothing 110 two_readers refl
      reading 2 60000000 125 (extend_read 2 60000000) (omega arith) renewed renewal_granted 150 _
      (after 140 (run_op documented 140 (release_read 1) renewing).0 150 (try_write 3 40000000)
        (after 125 renewing 140 (release_read 1) start (omega arith)
          (record { shared = refl; other = omega arith }))
        (omega arith) (record { shared = refl; other = omega arith }))
      184 (omega arith) (omega arith)
