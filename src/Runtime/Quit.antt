-- ===== src/Runtime/Quit.antt =====
-- What the operator's commands leave behind.
use snowcast.Prelude.{
  ℕ, zero, suc, ◌≤◌, ◌≡◌, refl, sym, ap, ◌∙◌, inl, inr, Text, true, false, Bool-cases, some, [],
  ◌∷◌, length, arith, ◌==◌, ==_iff, text_eq, text_eq_iff, text_eq_refl,
}
use snowcast.Run.{done, Ends, ends, Ends-mono}
use snowcast.State.Store.{State, Clients, lookup, delete, update}
use snowcast.State.Apply.{close_chan}
use snowcast.State.Maps.{lookup-delete}
use snowcast.State.Disconnect.{closed_client}
use snowcast.State.Invariant.{IsConsistent}
use snowcast.Runtime.Operator.{close_some, close_clients}

length-delete : (k : Text) (m : Clients) → length (delete k m) ≤ length m
unfolding delete
length-delete k [] = omega arith
length-delete k ((j, p) ∷ m) = ground (arith, length-delete k m)

fewer :
    (key : Text) (p : ℕ) (m : Clients) (n : ℕ)
    → length ((key, p) ∷ m) ≤ suc n
    → length (delete key ((key, p) ∷ m)) ≤ n
unfolding delete
fewer key p m n room = rw (text_eq_refl key) (omega (arith, length-delete key m))

-- The clients in the map have channels of their own, which are open.
record AreOpen (s : State) : Type 0 where
  unaliased :
      (j k : Text) (p : ℕ)
      → lookup j s.current_clients ≡ some p
      → lookup k s.current_clients ≡ some p
      → j ≡ k
  open_chan :
      (k : Text) (p : ℕ)
      → lookup k s.current_clients ≡ some p
      → (s.heap p).event_chan.closed ≡ false

-- The map is empty, and the channel of everyone in it is closed.
pub record AreClosed (s t : State) : Type 0 where
  pub empty : t.current_clients ≡ []
  pub closed :
      (k : Text) (p : ℕ) → lookup k s.current_clients ≡ some p → (t.heap p).event_chan.closed ≡ true
  pub stays : (p : ℕ) → (s.heap p).event_chan.closed ≡ true → (t.heap p).event_chan.closed ≡ true
  pub station_list : t.station_list ≡ s.station_list

module _ (key : Text) (p : ℕ) (s : State) where
  abbrev shut : State
  shut = record s {
    heap = update s.heap p (closed_client (s.heap p));
    current_clients = delete key s.current_clients;
  }

  close_some-suc :
      (n : ℕ) (more : Clients)
      → s.current_clients ≡ (key, p) ∷ more
      → (s.heap p).event_chan.closed ≡ false
      → close_some (suc n) s ≡ close_some n shut
  unfolding close_some close_chan
  close_some-suc n more e is_open = rw (e, is_open) refl

  module _ (found : lookup key s.current_clients ≡ some p) (h : AreOpen s) where
    -- Who is left after `key`.
    left :
        (k : Text) (q : ℕ)
        → lookup k shut.current_clients ≡ some q
        → (lookup k s.current_clients ≡ some q) × ((p == q) ≡ false)
    left k q e =
        let read = lookup-delete key k s.current_clients in
        elim (Bool-cases (text_eq key k)) [
          | inl same ↦ absurd (ground (arith, rw same at read))
          | inr other ↦
              let there : lookup k s.current_clients ≡ some q = sym (rw other at read) ∙ e in
              (
                there,
                elim (Bool-cases (p == q)) [
                  | inl at ↦
                      let one : p ≡ q = (==_iff p q).0 at in
                      absurd (
                        ground (
                          arith,
                          text_eq_iff key k,
                          h.unaliased key k q (found ∙ ap some one) there,
                        ))
                  | inr apart ↦ apart
                ],
              )
        ]

    AreOpen-shut : AreOpen shut
    AreOpen-shut = record {
      unaliased = λ j k q e f. h.unaliased j k q (left j q e).0 (left k q f).0;
      open_chan = λ k q e. let (there, apart) = left k q e in rw apart (h.open_chan k q there);
    }

    closed-shut :
        (q : ℕ) → (s.heap q).event_chan.closed ≡ true → (shut.heap q).event_chan.closed ≡ true
    closed-shut q e = ground (arith, ==_iff p q)

    AreClosed-shut : (t : State) → AreClosed shut t → AreClosed s t
    AreClosed-shut t r = record {
      empty = r.empty;
      closed = λ k q e. elim (Bool-cases (text_eq key k)) [
        | inl same ↦
            let here : some p ≡ some q =
              sym found ∙ ap (λ j. lookup j s.current_clients) ((text_eq_iff key k).0 same) ∙ e in
            r.stays q (ground (arith, ==_iff p q, here))
        | inr other ↦ r.closed k q (lookup-delete key k s.current_clients ∙ rw other e)
      ];
      stays = λ q e. r.stays q (closed-shut q e);
      station_list = r.station_list;
    }

nobody_left : (n : ℕ) (s : State) → s.current_clients ≡ [] → close_some n s ≡ done tt s
unfolding close_some
nobody_left zero s e = refl
nobody_left (suc n) s e = rw e refl

close_some-AreClosed :
    (n : ℕ) (s : State) (m : Clients)
    → s.current_clients ≡ m
    → length m ≤ n
    → AreOpen s
    → Ends (λ _ t. AreClosed s t) (close_some n s)
unfolding lookup
close_some-AreClosed n s [] e room h = rw (nobody_left n s e) (
    ends (record {
      empty = e;
      closed = λ k p found. absurd (ground (arith, rw e at found));
      stays = λ p shut. shut;
      station_list = refl;
    }))
close_some-AreClosed zero s ((key, p) ∷ m) e room h = absurd (omega (arith, room))
close_some-AreClosed (suc n) s ((key, p) ∷ m) e room h =
    let found : lookup key s.current_clients ≡ some p = rw (e, text_eq_refl key) refl in
    rw (close_some-suc key p s n m e (h.open_chan key p found)) (
      Ends-mono
        (close_some-AreClosed n (shut key p s) (delete key s.current_clients) refl
          (rw e (fewer key p m n room)) (AreOpen-shut key p s found h))
        λ _ t r. AreClosed-shut key p s found h t r)

pub close_clients-AreClosed :
    (s : State) → IsConsistent s → Ends (λ _ t. AreClosed s t) (close_clients s)
unfolding close_clients
close_clients-AreClosed s h =
    close_some-AreClosed (length s.current_clients) s s.current_clients refl (omega arith)
      (record { unaliased = h.unaliased; open_chan = h.open_chan })
