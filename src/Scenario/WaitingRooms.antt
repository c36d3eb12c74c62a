-- ===== src/Scenario/WaitingRooms.antt =====
-- Concrete runs of the waiting room: a user joins, is admitted, and a purchase claims and finishes.
use peak_pass.Prelude.{
  ℕ, ◌+◌, ◌≤◌, ◌≡◌, refl, true, false, Option, none, some, List, [], ◌∷◌, ◌++◌, length, arith,
  text_eq,
}
use peak_pass.Model.Admission.{Fingerprint, reservation}
use peak_pass.Admission.{fingerprint_eq}
use peak_pass.Redis.{Zset, hget, hset, hdel, zinsert, zadd, zremove_to, zup_to, ztake, zrank}
use peak_pass.WaitingRoom.{
  Entry, Namespace, Keys, ControlKey, Operation, Limited, Room, admission_profile,
}
use peak_pass.WaitingRoom.Script.{pure, gets, modify, need, ◌>>=◌}
use peak_pass.WaitingRoom.Entries.{
  read, read_optional, clear_active, terminal, expire, expire_optional, snapshot,
}
use peak_pass.WaitingRoom.Requests.{
  limiter, renew, renew_optional, enter, new_entry, rejoin, join_new, cancel_idle,
}
use peak_pass.WaitingRoom.Requests
use peak_pass.WaitingRoom.Finish.{claim_admitted, claim_in, finish_admitted}
use peak_pass.WaitingRoom.Finish
use peak_pass.WaitingRoom.Tick.{
  expire_all, overdue_idle, expire_if, expire_admitted, admit, promote, mark_overdue,
}
use peak_pass.WaitingRoom.Tick
use peak_pass.WaitingRoom.Lifecycle.{
  empty_namespace, counts_agree, structures, intact, create, max_sequence,
}
use peak_pass.WaitingRoom.Lifecycle
use peak_pass.WaitingRoom.Run.{
  references, on_target, body, run_body, run_limited, run_open, run_checked, run_hash,
  run_admission,
}
use peak_pass.WaitingRoom.Health.{live, Healthy}
use peak_pass.WaitingRoom.Steps.{EntrySteps, is_ended}
use peak_pass.WaitingRoom.Rooms.{RoomHealthy, entry_at}
use peak_pass.WaitingRoom.Histories.{
  Call, run_calls, AllFresh, run_calls-RoomHealthy, run_admission-answered, run_calls-EntrySteps,
  run_calls-ended, run_calls-bounded, run_calls-one_live,
}
use peak_pass.WaitingRoom.Ticking.{members}
use peak_pass.WaitingRoom.Order.{promote-members}
use peak_pass.WaitingRoom.Limits.{limiter-wait}
use peak_pass.WaitingRoom.Running.{is_fault}

-- No key of the event is there.
abbrev start : Room
start = record { control = ControlKey.missing; keys = λ e. Keys.absent; limits = λ u l. some [] }

abbrev call : ℕ → Operation → Call
call now op = record { now = now; request_id = now; epoch = 1; operation = op }

abbrev print : Fingerprint
print = record {
  user_id = 5;
  event_id = 3;
  epoch = 1;
  operation = reservation;
  tier_id = [];
  quantity = 2;
  checkout_key = none;
}

abbrev two_join : List Call
two_join =
    call 1000 (Operation.initialize 1 7)
    ∷ call 1100 (Operation.publish 1)
    ∷ call 2000 (Operation.join 5 11 21)
    ∷ call 2100 (Operation.join 6 12 22)
    ∷ []

abbrev one_buys : List Call
one_buys =
    call 3000 Operation.tick
    ∷ call 4000 (Operation.claim 5 21 print 99)
    ∷ call 5000 (Operation.close 5 21 print 99)
    ∷ []

-- All of the runs: the purchase of the first user is closed in the end.
abbrev bought : List Call
bought = two_join ++ one_buys

bought-fresh : AllFresh admission_profile bought start
unfolding AllFresh run_calls run_admission Lifecycle.initialize create Lifecycle.publish run_hash
    run_checked run_open run_limited run_body body references on_target Requests.join join_new enter
    snapshot limiter counts_agree read read_optional expire_optional expire pure gets modify need
    ◌>>=◌ hget hset hdel zinsert zadd zremove_to zrank Tick.tick expire_all expire_admitted
    overdue_idle expire_if promote admit zup_to ztake Finish.claim claim_in claim_admitted
    Finish.finish finish_admitted terminal clear_active fingerprint_eq text_eq
bought-fresh = (tt, (tt, (refl, (refl, (tt, (tt, (tt, tt)))))))

two_join-fresh : AllFresh admission_profile two_join start
unfolding AllFresh run_calls run_admission Lifecycle.initialize create Lifecycle.publish run_hash
    run_checked run_open run_limited run_body body references on_target Requests.join join_new enter
    snapshot limiter counts_agree read read_optional expire_optional expire pure gets modify need
    ◌>>=◌ hget hset hdel zinsert zadd zremove_to zrank
two_join-fresh = (tt, (tt, (refl, (refl, tt))))

start-RoomHealthy : RoomHealthy admission_profile start
start-RoomHealthy e = tt

abbrev joined : Room
joined = run_calls admission_profile two_join start

abbrev namespace_of : Keys → Namespace
namespace_of (Keys.whole n) = n
namespace_of _ = empty_namespace 0

-- The namespace of the two users that wait.
abbrev waiting_two : Namespace
waiting_two = namespace_of (joined.keys 1)

joined-RoomHealthy : RoomHealthy admission_profile joined
joined-RoomHealthy =
    run_calls-RoomHealthy admission_profile two_join start start-RoomHealthy two_join-fresh

waiting_two-Healthy : Healthy admission_profile waiting_two
unfolding AllFresh run_calls run_admission Lifecycle.initialize create Lifecycle.publish run_hash
    run_checked run_open run_limited run_body body references on_target Requests.join join_new enter
    snapshot limiter counts_agree read read_optional expire_optional expire pure gets modify need
    ◌>>=◌ hget hset hdel zinsert zadd zremove_to zrank
waiting_two-Healthy = joined-RoomHealthy 1

run_calls-RoomHealthy_example :
    RoomHealthy admission_profile (run_calls admission_profile bought start)
run_calls-RoomHealthy_example =
    run_calls-RoomHealthy admission_profile bought start start-RoomHealthy bought-fresh

run_admission-answered_example :
    is_fault (run_admission 3000 admission_profile 3 1 Operation.tick joined).0 ≡ false
run_admission-answered_example =
    run_admission-answered admission_profile 3000 3 1 Operation.tick joined joined-RoomHealthy tt

run_calls-EntrySteps_example :
    EntrySteps (entry_at 1 21 start) (entry_at 1 21 (run_calls admission_profile bought start))
run_calls-EntrySteps_example =
    run_calls-EntrySteps admission_profile bought start start-RoomHealthy bought-fresh 1 21

abbrev over : Room
over = run_calls admission_profile bought start

over-RoomHealthy : RoomHealthy admission_profile over
over-RoomHealthy =
    run_calls-RoomHealthy admission_profile bought start start-RoomHealthy bought-fresh

-- The user asks for the status, and cancels too late.
abbrev again : List Call
again = call 6000 (Operation.status 5) ∷ call 6100 (Operation.cancel 5 21) ∷ []

over-is_ended : is_ended (entry_at 1 21 over) ≡ true
unfolding AllFresh run_calls run_admission Lifecycle.initialize create Lifecycle.publish run_hash
    run_checked run_open run_limited run_body body references on_target Requests.join join_new enter
    snapshot limiter counts_agree read read_optional expire_optional expire pure gets modify need
    ◌>>=◌ hget hset hdel zinsert zadd zremove_to zrank Tick.tick expire_all expire_admitted
    overdue_idle expire_if promote admit zup_to ztake Finish.claim claim_in claim_admitted
    Finish.finish finish_admitted terminal clear_active fingerprint_eq text_eq
over-is_ended = refl

again-fresh : AllFresh admission_profile again over
unfolding AllFresh
again-fresh = (tt, (tt, tt))

run_calls-ended_example :
    entry_at 1 21 (run_calls admission_profile again over) ≡ entry_at 1 21 over
run_calls-ended_example =
    run_calls-ended admission_profile again over over-RoomHealthy again-fresh 1 21 over-is_ended

waiting_two-keys : joined.keys 1 ≡ Keys.whole waiting_two
unfolding AllFresh run_calls run_admission Lifecycle.initialize create Lifecycle.publish run_hash
    run_checked run_open run_limited run_body body references on_target Requests.join join_new enter
    snapshot limiter counts_agree read read_optional expire_optional expire pure gets modify need
    ◌>>=◌ hget hset hdel zinsert zadd zremove_to zrank
waiting_two-keys = refl

run_calls-bounded_example :
    (length waiting_two.active ≤ 8)
    × ((length waiting_two.queue ≤ 1000)
        × ((length waiting_two.entries ≤ 10000) × (length waiting_two.window ≤ 2)))
run_calls-bounded_example =
    run_calls-bounded admission_profile two_join start (λ e. refl) two_join-fresh 1 waiting_two
      waiting_two-keys

-- The first user leaves the queue and joins again.
abbrev rejoins : List Call
rejoins = two_join ++ (call 3000 (Operation.cancel 5 21) ∷ call 4000 (Operation.join 5 13 23) ∷ [])

rejoins-fresh : AllFresh admission_profile rejoins start
unfolding AllFresh run_calls run_admission Lifecycle.initialize create Lifecycle.publish run_hash
    run_checked run_open run_limited run_body body references on_target Requests.join join_new enter
    snapshot limiter counts_agree read read_optional expire_optional expire pure gets modify need
    ◌>>=◌ hget hset hdel zinsert zadd zremove_to zrank Requests.cancel cancel_idle terminal
    clear_active
rejoins-fresh = (tt, (tt, (refl, (refl, (tt, (refl, tt))))))

abbrev rejoined : Room
rejoined = run_calls admission_profile rejoins start

abbrev entry_in : Option Entry → Entry
entry_in (some e) = e
entry_in none = new_entry 0 admission_profile 0 0 0

-- The user's entry that waits, and the one that was cancelled.
abbrev second : Entry
second = entry_in (entry_at 1 23 rejoined)

abbrev first : Entry
first = entry_in (entry_at 1 21 rejoined)

second_waits :
    (entry_at 1 23 rejoined ≡ some second)
    × ((entry_at 1 21 rejoined ≡ some first)
        × ((second.user_id ≡ first.user_id) × (live second ≡ true)))
unfolding AllFresh run_calls run_admission Lifecycle.initialize create Lifecycle.publish run_hash
    run_checked run_open run_limited run_body body references on_target Requests.join join_new enter
    snapshot limiter counts_agree read read_optional expire_optional expire pure gets modify need
    ◌>>=◌ hget hset hdel zinsert zadd zremove_to zrank Requests.cancel cancel_idle terminal
    clear_active live
second_waits = (refl, (refl, (refl, refl)))

run_calls-one_live_example : is_ended (some first) ≡ true
run_calls-one_live_example =
    run_calls-one_live admission_profile rejoins start (λ x. refl) rejoins-fresh 1 23 21 second
      first second_waits.0 second_waits.1.0 second_waits.1.1.0 (omega arith) second_waits.1.1.1

promote-members_example :
    (ids : List ℕ) × ((after : Namespace) × ((promote 3000 admission_profile 2 waiting_two
          ≡ some (ids, after))
        × (ids ++ members after.queue ≡ members waiting_two.queue)))
unfolding AllFresh run_calls run_admission Lifecycle.initialize create Lifecycle.publish run_hash
    run_checked run_open run_limited run_body body references on_target Requests.join join_new enter
    snapshot limiter counts_agree read read_optional expire_optional expire pure gets modify need
    ◌>>=◌ hget hset hdel zinsert zadd zremove_to zrank
promote-members_example =
    promote-members admission_profile 3000 2 waiting_two waiting_two-Healthy (omega arith)
      (omega arith)

abbrev ten : Zset
ten =
    (0, 1000)
    ∷ (1, 1001)
    ∷ (2, 1002)
    ∷ (3, 1003)
    ∷ (4, 1004)
    ∷ (5, 1005)
    ∷ (6, 1006)
    ∷ (7, 1007)
    ∷ (8, 1008)
    ∷ (9, 1009)
    ∷ []

limiter-wait_example :
    (limiter (2000 + 59000) 5 Limited.joins (limiter 2000 4 Limited.joins ten).1).0 ≡ none
unfolding limiter
limiter-wait_example = limiter-wait 2000 4 5 Limited.joins ten 59000 (omega arith) refl
