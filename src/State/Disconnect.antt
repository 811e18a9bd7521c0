-- ===== src/State/Disconnect.antt =====
-- `ApplyDisconnect`: what it changes, and that the invariant survives.
use snowcast.Prelude.{
  ℕ, ◌<◌, ◌≡◌, refl, ap, ◌∙◌, inl, inr, Text, ℤ, Bool-cases, true, false, none, some, arith, ◌==◌,
  ==_iff, text_eq_iff, length,
}
use snowcast.Run.{Ends, ends, Ends-bind}
use snowcast.State.Store.{State, lookup, delete, update, ClientInfo}
use snowcast.State.Apply.{close_chan, apply_disconnect}
use snowcast.State.Maps.{lookup-delete}
use snowcast.State.Effects.{IsPlaced, count_at, name_at, without, in_range-length, remove-Relisted}
use snowcast.State.Invariant.{IsConsistent}

-- The client record with its channel closed.
abbrev pub closed_client : ClientInfo → ClientInfo
closed_client c = record c { event_chan = record (c.event_chan) { closed = true } }

-- The client at `p` left the map and every list, and its channel is closed.
pub record Departed (key : Text) (p : ℕ) (s t : State) : Type 0 where
  pub next : t.next ≡ s.next
  pub length : length t.station_list ≡ length s.station_list
  pub names : (y : ℤ) → name_at t.station_list y ≡ name_at s.station_list y
  pub heap : t.heap ≡ update s.heap p (closed_client (s.heap p))
  pub current_clients : t.current_clients ≡ delete key s.current_clients
  pub counts : (q : ℕ) (y : ℤ) → count_at t q y ≡ without p (count_at s) q y

module _ {s : State} (key : Text) {p : ℕ} (h : IsConsistent s)
    (found : lookup key s.current_clients ≡ some p) where
  pub apply_disconnect-Departed :
      Ends (λ err t. (err ≡ none) × Departed key p s t) (apply_disconnect key s)
  unfolding apply_disconnect close_chan
  apply_disconnect-Departed =
      let at = h.placed key p found in
      rw (found, apply_disconnect)
        (Ends-bind
          (remove-Relisted p (record s { current_clients = delete key s.current_clients })
            (record { stationed = at.stationed; listed = at.listed }))
          λ _ t a.
            rw (a.heap, h.open_chan key p found)
              (ends (
                refl,
                record {
                  next = a.next;
                  length = a.length;
                  names = a.names;
                  heap = refl;
                  current_clients = a.current_clients;
                  counts = a.counts;
                },
              )))

module _ {key : Text} {p : ℕ} {s t : State} (d : Departed key p s t) (h : IsConsistent s)
    (found : lookup key s.current_clients ≡ some p) where
  -- Who is registered afterwards was so before, at another address.
  pub stayed :
      (k : Text) (q : ℕ)
      → lookup k t.current_clients ≡ some q
      → (lookup k s.current_clients ≡ some q) × ((q == p) ≡ false)
  stayed k q e =
      let read = lookup-delete key k s.current_clients in
      let old : lookup k s.current_clients ≡ some q =
        ground (arith, ap (lookup k) d.current_clients, read) in
      (
        old,
        elim (Bool-cases (q == p)) [
          | inl same ↦ absurd (
              ground (
                arith,
                ap (lookup k) d.current_clients,
                read,
                text_eq_iff key k,
                h.unaliased key k p found (old ∙ ap some ((==_iff q p).0 same)),
              ))
          | inr other ↦ other
        ],
      )

  pub heap-other : (q : ℕ) → (q == p) ≡ false → t.heap q ≡ s.heap q
  heap-other q other = rw d.heap (ground arith)

  IsPlaced-other : (q : ℕ) → (q == p) ≡ false → IsPlaced q s → IsPlaced q t
  IsPlaced-other q other at = record {
    stationed =
        rw
          (
            heap-other q other,
            in_range-length (s.heap q).curr_station t.station_list s.station_list d.length,
          )
          at.stationed;
    listed = λ y.
        rw (heap-other q other, in_range-length y t.station_list s.station_list d.length)
          (ground (arith, d.counts q y, at.listed y));
  }

  kept :
      (k : Text) (q : ℕ)
      → lookup k s.current_clients ≡ some q
      → (q == p) ≡ false
      → lookup k t.current_clients ≡ some q
  kept k q f other = ground (
    arith,
    ap (lookup k) d.current_clients,
    lookup-delete key k s.current_clients,
    text_eq_iff key k,
    ap (λ j. lookup j s.current_clients) {x = key} {y = k},
    found,
  )

  registered-after :
      (q : ℕ) (y : ℤ) → 0 < count_at t q y → (k : Text) × (lookup k t.current_clients ≡ some q)
  registered-after q y n =
      let (k, f) = h.registered q y (ground (arith, d.counts q y)) in
      (k, kept k q f (ground (arith, d.counts q y)))

  pub IsConsistent-Departed : IsConsistent t
  IsConsistent-Departed = record {
    allocated = λ k q e. rw d.next (h.allocated k q (stayed k q e).0);
    unaliased = λ j k q e f. h.unaliased j k q (stayed j q e).0 (stayed k q f).0;
    placed = λ k q e. let (old, other) = stayed k q e in IsPlaced-other q other (h.placed k q old);
    registered = registered-after;
    open_chan =
        λ k q e. let (old, other) = stayed k q e in rw (heap-other q other) (h.open_chan k q old);
  }
