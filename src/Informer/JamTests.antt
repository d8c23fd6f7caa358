-- ===== src/Informer/JamTests.antt =====
-- A module is deleted while the worker of its repository waits to begin a round.
use crossform.Common.{String, refl, Option, none, some, [], ◌∷◌}
use crossform.Common.Dict.{lookup, put, remove}
use crossform.Repo.Config.{Config, config_of}
use crossform.Repo.State.{new_repo}
use crossform.Repo.Lock.{
  wants_lock, locking, sending, written, Session, new_session, took_default, destroy_locked,
}
use crossform.Manager.State.{new_manager, on_update, get_repo_by_hash, uses_of}
use crossform.Repo.Samples.{Remote, md5, config}
use crossform.Informer.Handlers.{no_queues, send_update}
use crossform.Informer.Goroutines.{
  Running, running, take_update, begin_destroy, sent_update, sent_delete, update_taken,
  destroy_began, moved, Turns, none_yet, then_next,
}
use crossform.Common.{List}
use crossform.Manager.Replay.{Message}
use crossform.Informer.Sequential.{IsAfter, sent_updates, sent_deletes, Turns-worker}
use crossform.Repo.State.{Repo}
use crossform.Informer.Jam.{IsJammed, Stays, manager-Stays}

abbrev remove_all : String → Remote → Option String × Remote
remove_all path w = (none, w)

abbrev Office : Type 0
Office = Running Remote Remote

abbrev on_tag : Config
on_tag = config_of md5 "https://git" "v1"

program : Unit {0}
unfolding lookup put remove new_manager on_update get_repo_by_hash uses_of new_repo
program = tt

abbrev opened : Office
opened = running (some "c1")

abbrev told : Office
told = record opened { queues = send_update config no_queues }

abbrev known : Office
known = take_update remove_all config [] told

abbrev at_lock : Session
at_lock = record new_session { worker = wants_lock }

abbrev polling : Office
polling = record known { sessions = put config.hash at_lock known.sessions }

abbrev dropped : Office
dropped = record polling { queues = record { config_updates = []; config_deletes = config ∷ [] } }

abbrev asked : Office
asked = begin_destroy remove_all config [] at_lock dropped

abbrev jammed_at : Session
jammed_at = record at_lock { destroyer = sending; lock = written }

abbrev jam : Office
jam = record asked { sessions = put config.hash jammed_at asked.sessions }

-- another module is added
abbrev late : Office
late = record jam { queues = send_update on_tag jam.queues }

jam-Turns : Turns remove_all opened jam
unfolding program
jam-Turns =
    then_next
      (then_next
        (then_next
          (then_next
            (then_next (then_next none_yet (sent_update opened config))
              (update_taken told config [] refl refl))
            (moved known config.hash new_session at_lock refl (took_default new_session refl refl)
              (λ new. refl)))
          (sent_delete polling config))
        (destroy_began dropped config [] at_lock refl refl refl refl refl))
      (moved asked config.hash (record at_lock { destroyer = locking }) jammed_at refl
        (destroy_locked _ refl refl) (λ new. cc))

jam-IsJammed : IsJammed remove_all jam config jammed_at
unfolding program
jam-IsJammed = record { waits = refl; found = refl; worker = refl; destroyer = refl }

manager-Stays_example : Stays remove_all jam late config jammed_at
manager-Stays_example =
    manager-Stays remove_all (some "c1") jam late config jammed_at jam-Turns jam-IsJammed
      (then_next none_yet (sent_update jam on_tag))

Turns-worker_example :
    (msgs : List Message) × IsAfter remove_all
      (some "c1")
      jam
      (sent_updates remove_all jam-Turns)
      (sent_deletes remove_all jam-Turns)
      msgs
Turns-worker_example = Turns-worker remove_all (some "c1") jam jam-Turns

-- The manager is told of two modules and has taken neither message.
abbrev told_both : Office
told_both = record opened { queues = send_update on_tag (send_update config no_queues) }
