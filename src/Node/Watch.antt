-- ===== src/Node/Watch.antt =====
-- The standby's loop while the key does not change hands.
use snowcast.Prelude.{
  ℕ, ◌≡◌, refl, sym, ap, ◌∙◌, Text, Bool, true, false, Option, none, some, is_some, arith, List, [],
  ◌∷◌,
}
use snowcast.Run.{done, Result, ok, err, Ends, ends, Ends-bind, Ends-mono}
use snowcast.Protocol.{WalEntry, Error}
use snowcast.Wal.Log.{Codec}
use snowcast.Leadership.Etcd.{Etcd, IsEtcd, Got, value_of}
use snowcast.Leadership.Session.{get_primary}
use snowcast.Node.Manager.{
  Node, ReplServer, standby, Surroundings, receive_at, receive, receive_all,
}
use snowcast.Node.Poll.{
  Polled, polling, returned, serving, Round, after_get, poll_from, poll, run_etcd_poll_loop,
}
use mathlib.Core.Path.{subst}

is_some-value_of : (o : Option (Text × ℕ)) → is_some (value_of o) ≡ is_some o
is_some-value_of none = refl
is_some-value_of (some (v, l)) = refl

-- A standby that watches the key.
pub record IsStandby (key : Text) (m : Node) : Type 0 where
  pub role : m.role ≡ standby
  pub watched : m.cfg.etcd_key ≡ key

module _ (codec : Codec) where
  -- The node behind the entries that the rounds bring.
  abbrev pub received : {E : Type 0} → List (Round E) → Node → Node
  received [] m = m
  received (round ∷ rounds) m = received rounds (receive_all codec round.requests m)

  module _ (key : Text) where
    IsStandby-receive_at :
        (request : Option WalEntry) (server : Option ReplServer) (m : Node)
        → IsStandby key m
        → IsStandby key (receive_at codec request server m).1
    unfolding receive_at
    IsStandby-receive_at request none m h = h
    IsStandby-receive_at request (some r) m h = record { role = h.role; watched = h.watched }

    IsStandby-receive_all :
        (requests : List (Option WalEntry)) (m : Node)
        → IsStandby key m
        → IsStandby key (receive_all codec requests m)
    unfolding receive_all receive
    IsStandby-receive_all [] m h = h
    IsStandby-receive_all (request ∷ requests) m h =
        IsStandby-receive_all requests _ (IsStandby-receive_at request m.repl_server m h)

module _ {E : Type 0} (holder : E → Text → Option (Text × ℕ)) (key : Text) (held : Bool) where
  -- What others do to etcd in these rounds neither takes the key nor frees it.
  abbrev pub IsQuiet : List (Round E) → Type 0
  IsQuiet [] = Unit
  IsQuiet (round ∷ rounds) =
      ((e : E) → is_some (holder e key) ≡ held → is_some (holder (round.meanwhile e) key) ≡ held)
      × IsQuiet rounds

  module _ (etcd : Etcd E) (codec : Codec) (law : IsEtcd holder etcd) where
    -- The loop polls on, the node is `m`, and the key is held or free as it was; a loop over a free key has
    -- not seen it held.
    pub record IsWaiting (m : Node) (outcome : Polled) (w : E × Node) : Type 0 where
      pub polls : (seen : Bool) × (outcome ≡ polling seen) × (held ≡ false → seen ≡ false)
      pub node : w.1 ≡ m
      pub at_key : is_some (holder (w.0) key) ≡ held

    after_get-IsWaiting :
        (env : Surroundings) (seen : Bool) (m : Node) (e : E) (r : Result Error (Option Text) × E)
        → Got holder key e r
        → is_some (holder e key) ≡ held
        → (held ≡ false → seen ≡ false)
        → Ends (IsWaiting m) (after_get etcd codec env seen m r)
    unfolding after_get
    after_get-IsWaiting env seen m e (err x, f) same at room =
        ends
          (record { polls = (seen, refl, room); node = refl; at_key = ap is_some (same key) ∙ at })
    after_get-IsWaiting env seen m e (ok (some v), f) (got, same) at room =
        let holds : true ≡ held = ap is_some got ∙ is_some-value_of (holder e key) ∙ at in
        ends (record {
          polls = (true, refl, λ free. holds ∙ free);
          node = refl;
          at_key = ap is_some (same key) ∙ at;
        })
    after_get-IsWaiting env false m e (ok none, f) (got, same) at room =
        ends
          (record { polls = (false, refl, room); node = refl; at_key = ap is_some (same key) ∙ at })
    after_get-IsWaiting env true m e (ok none, f) (got, same) at room =
        let free : held ≡ false =
          sym at ∙ sym (is_some-value_of (holder e key)) ∙ ap is_some (sym got) in
        absurd (ground (arith, room free))

    poll-IsWaiting :
        (env : Surroundings) (seen : Bool) (m : Node) (e : E)
        → IsStandby key m
        → is_some (holder e key) ≡ held
        → (held ≡ false → seen ≡ false)
        → Ends (IsWaiting m) (poll etcd codec env seen (e, m))
    unfolding poll poll_from get_primary
    poll-IsWaiting env seen m e stands at room =
        subst (λ r. Ends (IsWaiting m) (poll_from etcd codec env seen r (e, m))) (sym stands.role)
          (subst (λ k. Ends (IsWaiting m) (after_get etcd codec env seen m (etcd.get k e)))
            (sym stands.watched)
            (after_get-IsWaiting env seen m e (etcd.get key e) (law.got key e) at room))

    -- Over an etcd that does as documented, while the others neither take the key nor free it, the
    -- loop of a standby over any number of rounds polls on, the node is what the entries that it
    -- received meanwhile make of it, and the key is held or free as it was, where a loop over a
    -- free key has not seen it held.
    pub run_etcd_poll_loop-IsWaiting :
        (rounds : List (Round E)) (seen : Bool) (m : Node) (e : E)
        → IsQuiet rounds
        → IsStandby key m
        → is_some (holder e key) ≡ held
        → (held ≡ false → seen ≡ false)
        → Ends
            (IsWaiting (received codec rounds m))
            (run_etcd_poll_loop etcd codec rounds seen (e, m))
    unfolding run_etcd_poll_loop
    run_etcd_poll_loop-IsWaiting [] seen m e quiet stands at room =
        ends (record { polls = (seen, refl, room); node = refl; at_key = at })
    run_etcd_poll_loop-IsWaiting (round ∷ rounds) seen m e (calm, quiet) stands at room =
        let m1 = receive_all codec round.requests m in
        let stays = IsStandby-receive_all codec key round.requests m stands in
        Ends-bind
          (poll-IsWaiting round.surroundings seen m1 (round.meanwhile e) stays (calm e at) room)
          λ o w waits.
            let (s, polls, free) = waits.polls in
            subst
              (λ o. Ends (IsWaiting (received codec rounds m1)) (elim o [
                | polling s ↦ run_etcd_poll_loop etcd codec rounds s w
                | returned ↦ done returned w
                | serving ↦ done serving w
              ]))
              (sym polls)
              (Ends-mono
                (run_etcd_poll_loop-IsWaiting rounds s (w.1) (w.0) quiet
                  (subst (IsStandby key) (sym waits.node) stays) waits.at_key free)
                λ o v more. record {
                  polls = more.polls;
                  node = more.node ∙ ap (received codec rounds) waits.node;
                  at_key = more.at_key;
                })
