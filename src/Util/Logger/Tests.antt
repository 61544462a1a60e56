-- ===== src/Util/Logger/Tests.antt =====
-- A log that is repeated once, and another one; and a writer that is given one log and destroyed.
use ffzkit.Base.{All, codes, same_bytes, bytes_lt, ℕ, ◌≡◌, refl, true, some, none, [], ◌∷◌, arith}
use ffzkit.Thread.TaskQueue
use ffzkit.Util.Logger.{Message, Context, Logger, add, del, find_channel, set_level, write_channels}
use ffzkit.Util.Logger.Repeats.{accounted, write_all, IsPrinted, accounted-write_all}
use ffzkit.Util.Logger.Writer.{
  AsyncWriter, at_wait, at_swap, ended, fresh, writes, posts, tests, passes, swaps, delivers,
  flushed, exits, Reach, here, next, destroyed, Reach-all_delivered,
}

abbrev hello : Message
hello = record { file = codes "a.cpp"; line = 7; text = codes "hello"; thread_name = codes "main" }

abbrev other : Message
other = record { file = codes "a.cpp"; line = 9; text = codes "bye"; thread_name = codes "main" }

abbrev log : Message → ℕ → Context
log m usec = record { message = m; level = 2; sec = 100; usec = usec; repeat = 0 }

abbrev quiet : Logger
quiet = record { channels = []; default_level = 0; last_log = log other 0; printed = [] }

-- The second "hello" is printed before the third log, the fourth one 600 ms behind it.
printed_twice :
    (write_all (log hello 0 ∷ log hello 9 ∷ log other 20 ∷ log other 600020 ∷ []) quiet).printed
    ≡ (log hello 0, codes "default" ∷ [])
      ∷ (record (log hello 0) { repeat = 1 }, codes "default" ∷ [])
      ∷ (log other 20, codes "default" ∷ [])
      ∷ (record (log other 600020) { repeat = 1 }, codes "default" ∷ [])
      ∷ []
unfolding write_all write_channels same_bytes
printed_twice = refl

levels :
    (find_channel (codes "b") (add (codes "b") 3 (add (codes "a") 1 quiet)).channels ≡ some 3)
    × (find_channel (codes "b") (del (codes "b") (add (codes "b") 3 quiet)).channels ≡ none)
    × (find_channel (codes "b") (set_level 4 (add (codes "b") 3 quiet)).channels ≡ some 4)
unfolding find_channel add del set_level same_bytes bytes_lt
levels = (refl, refl, refl)

accounted-write_all_example :
    let ctxs = log hello 0 ∷ log hello 9 ∷ log other 20 ∷ [] in
    (accounted (write_all ctxs quiet) ≡ hello ∷ hello ∷ other ∷ [])
    × All (IsPrinted quiet.channels quiet.default_level) (write_all ctxs quiet).printed
accounted-write_all_example =
    accounted-write_all (log hello 0 ∷ log hello 9 ∷ log other 20 ∷ []) quiet
      (refl, (refl, (refl, tt))) (omega arith) tt

abbrev given : AsyncWriter ℕ
given = record fresh { pending = 5 ∷ []; written = 5 ∷ []; posting = 1; place = at_wait }

given-Reach : Reach given
given-Reach = next (next here (tests refl)) (writes 5 refl)

abbrev awake : AsyncWriter ℕ
awake = record given { count = 0; posting = 0; place = at_swap }

awake-Reach : Reach awake
unfolding TaskQueue.post TaskQueue.wait
awake-Reach = next (next given-Reach (posts (omega arith))) (passes refl refl)

abbrev over : AsyncWriter ℕ
over = record awake {
  pending = [];
  delivered = 5 ∷ [];
  posting = 1;
  exit_flag = true;
  place = ended;
}

over-Reach : Reach over
over-Reach =
    next
      (next
        (next (next (next awake-Reach (swaps refl)) (delivers 5 [] refl refl)) (flushed refl refl))
        (exits refl refl))
      (tests refl)

Reach-all_delivered_example : destroyed over ≡ 5 ∷ []
Reach-all_delivered_example = Reach-all_delivered over-Reach refl
