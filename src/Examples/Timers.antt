-- ===== src/Examples/Timers.antt =====
-- Runs of EXPIRE, TTL, PERSIST and of timers that fire.
use keyp.Base.{refl, false, some, ◌≡◌, arith, if◌then◌else◌}
use keyp.Domain.{db_of, not_found}
use keyp.Lmdb.{err, same_place}
use keyp.Lmdb.Memory.{memory, memory-IsStore, memory-IsReliable}
use keyp.Storage.Expiry.{ttl, fire}
unfoldable use keyp.Storage.Expiry.{
  expire, persist, forget, keys_of, cancel_timer, cancel_old, stop,
}
use keyp.Storage.Expiry.Laws.{ttl-expire, fire-expire}
use keyp.Storage.Expiry.Timers.{IsTimed}
use keyp.Storage.Expiry.Reached.{
  IsReached, starts, steps, sets, expires, fires, IsReached-IsTimed, persist-stops,
}
use keyp.Storage.{Client, Timer}
use keyp.Storage.Strings as Strings
use keyp.Bytes.{codes, bytes_eq_refl}
unfoldable use keyp.Bytes.{bytes_eq}
unfoldable use keyp.Dict.{lookup, insert, delete}
use keyp.Dict.{nat_eq, string_eq}
use keyp.Storage.ListCommands.Pushes.{Differs}
use keyp.Examples.{ctx, key, contents, text_contents, holding, ready}

ttl-expire_example :
    ttl 103 ctx key (expire 100 ctx key 10 (holding contents))
    ≡ (if same_place (db_of ctx) key (db_of ctx) key then 7 else ttl 103 ctx key (holding contents))
ttl-expire_example =
    ttl-expire ctx ctx key key 100 103 10 (holding contents) (omega arith) (omega arith)

fire-expire_example :
    Differs memory text_contents 1 key
      (err not_found)
      (fire memory 0
        (record (expire 100 ctx key 10 (holding contents)) { env = text_contents })).env
fire-expire_example =
    fire-expire memory-IsStore memory-IsReliable ctx key 100 10 (holding contents) 1 text_contents
      (ready contents)

abbrev timed : Client memory
timed = expire 100 ctx key 10 (expire 99 ctx key 5 (holding contents))

timed-IsReached : IsReached timed
timed-IsReached =
    steps (steps (starts (holding contents) refl refl) (expires 99 ctx key 5))
      (expires 100 ctx key 10)

abbrev rewritten : Client memory
rewritten = (Strings.set memory ctx key (codes "v") timed).0

IsReached-IsTimed_example : IsTimed (fire memory 0 rewritten)
IsReached-IsTimed_example =
    IsReached-IsTimed (fire memory 0 rewritten)
      (steps (steps timed-IsReached (sets ctx key (codes "v"))) (fires 0))

abbrev second_timer : Timer
second_timer = record { running = false; due = 110; ctx = ctx; key = key }

second_found : lookup 1 (persist ctx key timed).0.timers ≡ some second_timer
unfolding persist forget keys_of cancel_timer cancel_old stop expire lookup insert delete bytes_eq
second_found = refl

persist-stops_example : second_timer.running ≡ false
persist-stops_example =
    persist-stops ctx key timed 1 second_timer timed-IsReached second_found (bytes_eq_refl key)
