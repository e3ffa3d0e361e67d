-- ===== src/Embedding/Examples.antt =====
-- The theorems of the embedding proxy at concrete inputs.
use private_onyx_app.Embedding.Lifecycle.{end_request}
use private_onyx_app.Egress.Address.{v4}
use private_onyx_app.Embedding.Lifecycle.Threads.Drained.{terminating-IsFinal}
use private_onyx_app.Embedding.Lifecycle.Threads.Closing.{shutdown-CanEnd}
use private_onyx_app.Embedding.Lifecycle.Threads.Safety.{
  starting-IsAlone, reaping-IsAlone, end_request-ok,
}
use private_onyx_app.Embedding.Lifecycle.Threads.Counts.{reaps, starts, census}
use private_onyx_app.Embedding.Lifecycle.Threads.Invariant.{reachable-Inv, Inv}
use private_onyx_app.Embedding.Lifecycle.Advertised.{startup-ends, published-Served, Served}
use private_onyx_app.Embedding.Slots.{serve-bounded, end_thread, connect, serve, Event, Server}
use private_onyx_app.Embedding.Handler.Bounded.{do_post-Shape, Shape}
use private_onyx_app.Embedding.Handler.{request_path, do_post, Request, Backend, Library}
use private_onyx_app.Embedding.Lifecycle.Startup.{startup, Observed, Startup}
use private_onyx_app.Embedding.Lifecycle.Threads.Progress.{asleep-Awaited, Awaited}
use private_onyx_app.Embedding.Lifecycle.Threads.{
  starting, serving, proceed, shut_down, reap, terminating, ask_shutdown, finish, started, begin,
  new_system, Act, run,
}
use private_onyx_app.Common.{
  total, is_text, any, text_eq, get, items_of, Result, replicate, no_elements, no_members, text,
  ◌≤◌, runtime_error, element, pos, array, ◌≢◌, ◌-◌, connection_error, codes, os_error, member_of,
  Option, get_elem?, ◌+◌, ◌>>=◌, ◌++◌, raise, parse_int, object, Json, List, Bool, ◌≡◌, ℕ, refl,
  ◌∷◌, [], none, some, true, false, ok,
}

-- Every process lives.
abbrev alive : ℕ → Bool
alive p = false

-- Thread 0 starts child 7 while thread 1 waits for it; both then serve.
abbrev waiting : List (ℕ × Act)
waiting = (0, begin alive) ∷ (1, begin alive) ∷ []

abbrev in_flight : List (ℕ × Act)
in_flight = waiting ++ ((0, started (some 7)) ∷ (1, begin alive) ∷ [])

abbrev idle : List (ℕ × Act)
idle = in_flight ++ ((0, finish 5) ∷ (1, finish 6) ∷ (2, reap 605) ∷ (2, reap 606) ∷ [])

abbrev shutting : List (ℕ × Act)
shutting = in_flight ++ ((3, ask_shutdown) ∷ (3, shut_down) ∷ (3, proceed) ∷ [])

abbrev shut : List (ℕ × Act)
shut = shutting ++ ((0, finish 5) ∷ (1, finish 6) ∷ (3, proceed) ∷ [])

reachable-Inv_example : let w = run shut (new_system 600 0 4) in Inv w.lifecycle (census w.threads)
reachable-Inv_example = reachable-Inv 600 0 4 shut

end_request-ok_example :
    let s = (run in_flight (new_system 600 0 4)).lifecycle in
    end_request 9 s ≡ ok (record s { active = s.active - 1; last_completed = 9 })
unfolding run new_system replicate
end_request-ok_example = end_request-ok 600 0 4 in_flight 1 9 refl

reaping-IsAlone_example :
    let w = run idle (new_system 600 0 4) in
    (get_elem? w.threads 0 ≢ some serving) × (get_elem? w.threads 0 ≢ some starting)
unfolding run new_system replicate
reaping-IsAlone_example = reaping-IsAlone 600 0 4 idle 2 0 7 refl

starting-IsAlone_example :
    let w = run waiting (new_system 600 0 4) in total starts w.threads + total reaps w.threads ≤ 1
starting-IsAlone_example = starting-IsAlone 600 0 4 waiting

asleep-Awaited_example : Awaited (run waiting (new_system 600 0 4)) 1
unfolding run new_system replicate
asleep-Awaited_example = asleep-Awaited 600 0 4 waiting 1 refl

shutdown-CanEnd_example :
    let w = run shutting (new_system 600 0 4) in
    (more : List (ℕ × Act)) × (child : Option ℕ) × (get_elem? (run more w).threads 3
      ≡ some (terminating child))
unfolding run new_system replicate
shutdown-CanEnd_example = shutdown-CanEnd 600 0 4 shutting 3 refl

terminating-IsFinal_example :
    let w = run ((0, begin alive) ∷ []) (run shut (new_system 600 0 4)) in
    (get_elem? w.threads 0 ≢ some serving) × (get_elem? w.threads 0 ≢ some starting)
unfolding run new_system replicate
terminating-IsFinal_example =
    terminating-IsFinal 600 0 4 shut 3 0 (some 7) ((0, begin alive) ∷ []) refl

abbrev model_body : Json
model_body = object (
    member_of (codes "data")
      (array
        (element (object (member_of (codes "id") (text (codes "embed")) no_members)) no_elements))
      no_members)

-- A child that refuses connections for a round, and then names its model.
abbrev rounds : List Observed
rounds =
    record {
      shutdown_requested = false;
      exited = false;
      models = raise os_error (codes "connection refused");
    }
    ∷ record { shutdown_requested = false; exited = false; models = ok (200, ok model_body) }
    ∷ []

published-Served_example : (◌≡◌ {A = Result ℕ} (ok 7) (ok 7)) × Served (codes "embed") rounds
unfolding startup private_onyx_app.Embedding.Lifecycle.Startup.startup_loop
    private_onyx_app.Embedding.Lifecycle.Startup.child_healthy items_of get text_eq any is_text
    private_onyx_app.Embedding.Lifecycle.Startup.published
published-Served_example =
    published-Served (codes "embed") (ok tt) (ok 7) rounds
      (record { child = some 7; failure = none }) 7 refl refl

abbrev canceled : List Observed
canceled =
    record {
      shutdown_requested = true;
      exited = false;
      models = raise os_error (codes "connection refused");
    }
    ∷ []

startup-ends_example : (s : Startup) × (startup (codes "embed") (ok tt) (ok 7) canceled ≡ some s)
startup-ends_example = startup-ends (codes "embed") (ok tt) (ok 7) canceled 0 _ refl refl

abbrev library : Library
library = record {
  int = λ t. parse_int t >>= (λ n. ok (pos n));
  dumps = λ j. [];
  class_name = λ e. e.message;
}

abbrev backend : Backend
backend = record {
  begun = ok tt;
  answer = λ sent. ok (record { status = 200; content_type = none; stream = sent.body });
  reply_write = raise connection_error (codes "broken pipe");
  report_write = ok tt;
}

abbrev request : Request
request = record {
  client = ok (v4 2130706433);
  path = request_path;
  transfer_encoding = none;
  content_length = some (codes "2");
  content_type = none;
  authorization = none;
  stream = codes "{}x";
}

do_post-Shape_example : Shape library request (do_post library backend request).0
do_post-Shape_example = do_post-Shape library backend request

abbrev crowd : List Event
crowd = connect (ok tt) ∷ connect (ok tt) ∷ end_thread ∷ connect (raise runtime_error []) ∷ []

serve-bounded_example :
    (t : Server) × (serve 1 crowd (record { slots = 1; handling = 0 }) ≡ ok t)
    × (t.slots + t.handling ≡ 1)
serve-bounded_example = serve-bounded 1 crowd (record { slots = 1; handling = 0 }) refl
