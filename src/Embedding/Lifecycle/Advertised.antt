-- ===== src/Embedding/Lifecycle/Advertised.antt =====
-- About `_child_healthy` and the loop of a startup.
use private_onyx_app.Embedding.Lifecycle.Startup.{
  is_model, Startup, watched, published, or_later, invalid_metadata, startup, startup_loop,
  ended_round, metadata, advertised, Advertises, Observed, child_healthy,
}
use private_onyx_app.Common.{
  runtime_error, raise, ap, sym, subst, codes, get, any, object, ◌∙◌, if◌then◌else◌, some_inv,
  elements, ◌==◌, arith, array, Elements, get_elem?, ℕ, ◌≡◌, Result, Json, Bool, Option, List,
  items_of, Text, ◌∷◌, [], zero, suc, none, some, ok, err, true, false, refl,
}

-- A round in which no shutdown was requested, the child lived, and its models named the one to serve.
pub record Served (name : Text) (rounds : List Observed) : Type 0 where
  pub position : ℕ
  pub seen : Observed
  pub body : Json
  pub is_there : get_elem? rounds position ≡ some seen
  pub wanted : seen.shutdown_requested ≡ false
  pub lives : seen.exited ≡ false
  pub answered : seen.models ≡ ok (200, ok body)
  pub advertises : Advertises name body

advertised-true :
    (name : Text) (found : Option (List Json))
    → advertised name found ≡ ok true
    → (items : List Json) × (found ≡ some items) × (any (is_model name) items ≡ true)
unfolding advertised invalid_metadata
advertised-true name none h = ground (arith, h)
advertised-true name (some items) h = (items, refl, ground (arith, h))

items_of-some :
    (found : Option Json) (items : List Json)
    → items_of found ≡ some items
    → (es : Elements) × (found ≡ some (array es)) × (elements es ≡ items)
unfolding items_of
items_of-some (some (array es)) items h = (es, refl, some_inv h)
items_of-some _ items h = ground (arith, h)

metadata-true :
    (name : Text) (body : Result Json)
    → metadata name body ≡ ok true
    → (json : Json) × (body ≡ ok json) × Advertises name json
unfolding metadata invalid_metadata
metadata-true name (err e) h = ground (arith, h)
metadata-true name (ok (object members)) h =
    let (items, e, names) = advertised-true name (items_of (get (codes "data") members)) h in
    let (es, e', e'') = items_of-some (get (codes "data") members) items e in
    (
      object members,
      refl,
      record {
        members = members;
        items = es;
        is_object = refl;
        has_data = e';
        names = subst (λ found. any (is_model name) found ≡ true) (sym e'') names;
      },
    )
metadata-true name (ok _) h = ground (arith, h)

ok_status-true :
    (status : ℕ) (checked : Result Bool)
    → (if status == 200 then checked else ok false) ≡ ok true
    → (status ≡ 200) × (checked ≡ ok true)
ok_status-true status checked h = ground (arith, h)

child_healthy-true :
    (name : Text) (exited : Bool) (models : Result (ℕ × Result Json))
    → child_healthy name exited models ≡ ok true
    → (json : Json) × (exited ≡ false) × (models ≡ ok (200, ok json)) × Advertises name json
unfolding child_healthy
child_healthy-true name true models h = ground (arith, h)
child_healthy-true name false (err e) h = ground (arith, h)
child_healthy-true name false (ok (status, body)) h =
    let (e, h') = ok_status-true status (metadata name body) h in
    let (json, e', names) = metadata-true name body h' in (json, refl, cc (e, e'), names)

ended_round-ok :
    (o : Observed) (health : Result Bool)
    → ended_round o health ≡ some (ok tt)
    → (o.shutdown_requested ≡ false) × (o.exited ≡ false) × (health ≡ ok true)
unfolding ended_round
ended_round-ok o (err e) h = ground (arith, h)
ended_round-ok o (ok true) h = ground (arith, h)
ended_round-ok o (ok false) h = ground (arith, h)

startup_loop-Served :
    (name : Text) (rounds : List Observed)
    → startup_loop name rounds ≡ some (ok tt)
    → Served name rounds
unfolding startup_loop or_later
startup_loop-Served name [] h = ground (arith, h)
startup_loop-Served name (o ∷ rounds) h =
    by_round (ended_round o (child_healthy name o.exited o.models)) refl h
      (startup_loop-Served name rounds)
  where
    by_round :
        (ended : Option (Result (Unit {0})))
        → ended_round o (child_healthy name o.exited o.models) ≡ ended
        → or_later ended (startup_loop name rounds) ≡ some (ok tt)
        → (startup_loop name rounds ≡ some (ok tt) → Served name rounds)
        → Served name (o ∷ rounds)
    by_round none e h' later =
        let rest = later h' in
        record {
          position = suc rest.position;
          seen = rest.seen;
          body = rest.body;
          is_there = rest.is_there;
          wanted = rest.wanted;
          lives = rest.lives;
          answered = rest.answered;
          advertises = rest.advertises;
        }
    by_round (some r) e h' later =
        let (wanted, lives, healthy) = ended_round-ok o _ (e ∙ h') in
        let (json, _, answered, names) = child_healthy-true name o.exited o.models healthy in
        record {
          position = 0;
          seen = o;
          body = json;
          is_there = refl;
          wanted = wanted;
          lives = lives;
          answered = answered;
          advertises = names;
        }

watched-published :
    (q : ℕ) (ended : Option (Result (Unit {0}))) (s : Startup) (p : ℕ)
    → watched q ended ≡ some s
    → published s ≡ some p
    → (q ≡ p) × (ended ≡ some (ok tt))
unfolding watched published
watched-published q none s p h h' = ground (arith, h)
watched-published q (some (ok u)) s p h h' = (some_inv (ap published (some_inv h) ∙ h'), refl)
watched-published q (some (err e)) s p h h' = ground (arith, ap published (some_inv h) ∙ h')

watched-some : (q : ℕ) (r : Result (Unit {0})) → (s : Startup) × (watched q (some r) ≡ some s)
unfolding watched
watched-some q (ok u) = (_, refl)
watched-some q (err e) = (_, refl)

or_later-some :
    (first later : Option (Result (Unit {0})))
    → (r : Result (Unit {0})) × (later ≡ some r)
    → (r : Result (Unit {0})) × (or_later first later ≡ some r)
unfolding or_later
or_later-some none later h = h
or_later-some (some r) later h = (r, refl)

ended_round-canceled :
    (o : Observed) (health : Result Bool)
    → o.shutdown_requested ≡ true
    → ended_round o health
      ≡ some (raise runtime_error (codes "MLX child startup canceled by proxy shutdown"))
unfolding ended_round
ended_round-canceled o health h = ground (arith, h)

startup_loop-ends :
    (name : Text) (rounds : List Observed) (i : ℕ) (o : Observed)
    → get_elem? rounds i ≡ some o
    → o.shutdown_requested ≡ true
    → (r : Result (Unit {0})) × (startup_loop name rounds ≡ some r)
unfolding startup_loop or_later
startup_loop-ends name [] i o h h' = ground (arith, h)
startup_loop-ends name (x ∷ rounds) zero o h h' = (
  _,
  ap (λ ended. or_later ended (startup_loop name rounds))
      (ended_round-canceled x _ (ap (λ y. y.shutdown_requested) (some_inv h) ∙ h')),
)
startup_loop-ends name (x ∷ rounds) (suc i) o h h' =
    or_later-some _ _ (startup_loop-ends name rounds i o h h')

-- A startup that publishes a child launched it, and saw it serve the configured model.
pub published-Served :
    (name : Text) (port : Result (Unit {0})) (popen : Result ℕ) (rounds : List Observed)
    (s : Startup) (p : ℕ)
    → startup name port popen rounds ≡ some s
    → published s ≡ some p
    → (popen ≡ ok p) × Served name rounds
unfolding startup published watched
published-Served name (err e) popen rounds s p h h' = ground (arith, h, h')
published-Served name (ok u) (err e) rounds s p h h' = ground (arith, h, h')
published-Served name (ok u) (ok q) rounds s p h h' =
    let (e, e') = watched-published q (startup_loop name rounds) s p h h' in
    (ap ok e, startup_loop-Served name rounds e')

-- A startup ends at the latest with the first round that sees a shutdown requested.
pub startup-ends :
    (name : Text) (port : Result (Unit {0})) (popen : Result ℕ) (rounds : List Observed) (i : ℕ)
    (o : Observed)
    → get_elem? rounds i ≡ some o
    → o.shutdown_requested ≡ true
    → (s : Startup) × (startup name port popen rounds ≡ some s)
unfolding startup watched
startup-ends name (err e) popen rounds i o h h' = (_, refl)
startup-ends name (ok u) (err e) rounds i o h h' = (_, refl)
startup-ends name (ok u) (ok q) rounds i o h h' =
    let (r, e) = startup_loop-ends name rounds i o h h' in
    subst (λ found. (s : Startup) × (watched q found ≡ some s)) (sym e) (watched-some q r)
