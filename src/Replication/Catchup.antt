-- ===== src/Replication/Catchup.antt =====
-- The calls to the backup: whatever the network does, the backup stays a prefix of the primary, and a
-- call that reports no error leaves it equal.
use mathlib.Core.Path.{subst}
use snowcast.Prelude.{
  ℕ, ◌+◌, ◌^◌, ◌≤◌, ◌<◌, ◌≡◌, refl, sym, ◌∙◌, true, false, Option, none, some, List, [], ◌∷◌, ◌++◌,
  arith, length, length-append, leb, append_assoc, append-nil,
}
use snowcast.Protocol.{WalEntry, Error}
use snowcast.Wal.File.{Bytes}
use snowcast.Wal.Log.{Codec}
use snowcast.Replication.Server.{InboundHandler, accepted, rejected, replicate}
use snowcast.Replication.Coordinator.{
  Delivery, delivered, request_lost, reply_lost, Pair, deliver, replicate_by, send, raise_last,
  send_missing,
}
use snowcast.Replication.Backup.{
  IsNumbered, Follows, replicate-next, Ahead, Ahead-here, Ahead-all, Ahead-longer, Ahead-earlier,
  IsEncodable,
}

-- The calls leave the package state and the primary's log alone.
pub record Kept (w w' : Pair) : Type 0 where
  pub mem : w'.mem ≡ w.mem
  pub wal : w'.wal ≡ w.wal

pub Kept-refl : (w : Pair) → Kept w w
Kept-refl w = record { mem = refl; wal = refl }

pub Kept-trans : {u v w : Pair} → Kept u v → Kept v w → Kept u w
Kept-trans a b = record { mem = b.mem ∙ a.mem; wal = b.wal ∙ a.wal }

module _ (codec : Codec) where
  open codec use {marshal}

  -- The outcome of a call that means to bring the backup from `bs` to `es`.
  abbrev pub Sent : List WalEntry → List WalEntry → Pair → Option Error × Pair → Type 0
  Sent es bs w (none, w') = Kept w w' × Follows codec es w'.backup
  Sent es bs w (some x, w') = Kept w w' × Ahead codec es bs w'.backup

  pub send-accepted :
      (es bs rest : List WalEntry) (e : WalEntry) (w : Pair) (h : InboundHandler)
      → es ≡ bs ++ rest
      → Follows codec bs w.backup
      → replicate codec (some e) w.backup ≡ (accepted e.seq, h)
      → Follows codec es h
      → Sent es bs w (send codec e w)
  unfolding send
  send-accepted es bs rest e w h split before reply after = by_fate (deliver w.net)
    where
      by_fate : (d : Delivery) → Sent es bs w (replicate_by codec d e w)
      by_fate delivered = rw reply (record { mem = refl; wal = refl }, after)
      by_fate request_lost = (record { mem = refl; wal = refl }, Ahead-here codec rest split before)
      by_fate reply_lost =
          rw reply (record { mem = refl; wal = refl }, Ahead-all codec rest split after)

  pub send-rejected :
      (es bs rest : List WalEntry) (e : WalEntry) (w : Pair) (x : Error)
      → es ≡ bs ++ rest
      → Follows codec bs w.backup
      → replicate codec (some e) w.backup ≡ (rejected e.seq x, w.backup)
      → Sent es bs w (send codec e w)
  unfolding send
  send-rejected es bs rest e w x split before reply = by_fate (deliver w.net)
    where
      by_fate : (d : Delivery) → Sent es bs w (replicate_by codec d e w)
      by_fate delivered =
          rw reply (record { mem = refl; wal = refl }, Ahead-here codec rest split before)
      by_fate request_lost = (record { mem = refl; wal = refl }, Ahead-here codec rest split before)
      by_fate reply_lost =
          rw reply (record { mem = refl; wal = refl }, Ahead-here codec rest split before)

  -- A later part of the way, seen from its start.
  pub Sent-earlier :
      (es mid bs extra : List WalEntry) (w w' : Pair) (r : Option Error × Pair)
      → mid ≡ bs ++ extra
      → Kept w w'
      → Sent es mid w' r
      → Sent es bs w r
  Sent-earlier es mid bs extra w w' (none, v) e k s = (Kept-trans k s.0, s.1)
  Sent-earlier es mid bs extra w w' (some x, v) e k s =
      (Kept-trans k s.0, Ahead-earlier codec extra e s.1)

  pub send-next :
      (e : WalEntry) (bs : List WalEntry) (w : Pair)
      → Follows codec bs w.backup
      → e.seq ≡ length bs + 1
      → length bs + 1 < 2 ^ 64
      → (b : Bytes) × (marshal e ≡ some b)
      → Sent (bs ++ e ∷ []) bs w (send codec e w)
  send-next e bs w f next room (b, m) =
      let (h, reply, after) = replicate-next codec e b bs w.backup f next room m in
      send-accepted (bs ++ e ∷ []) bs (e ∷ []) e w h refl f reply after

  abbrev on_sent : WalEntry → List WalEntry → ℕ → Option Error × Pair → Option Error × Pair
  on_sent e es last_seq (some x, v) = (some x, v)
  on_sent e es last_seq (none, v) = send_missing codec last_seq es (raise_last e.seq v)

  on_sent_lem :
      (e : WalEntry) (es : List WalEntry) (last_seq : ℕ) (r : Option Error × Pair)
      → (elim (r.0) [
        | some x ↦ (some x, r.1)
        | none ↦ send_missing codec last_seq es (raise_last e.seq (r.1))
      ])
        ≡ on_sent e es last_seq r
  on_sent_lem e es last_seq (some x, v) = refl
  on_sent_lem e es last_seq (none, v) = refl

  send_missing-new :
      (e : WalEntry) (es : List WalEntry) (last_seq : ℕ) (w : Pair)
      → leb e.seq last_seq ≡ false
      → send_missing codec last_seq (e ∷ es) w ≡ on_sent e es last_seq (send codec e w)
  unfolding send_missing
  send_missing-new e es last_seq w new =
      rw (new, send_missing) (on_sent_lem e es last_seq (send codec e w))

  -- The loop of `syncBackupWal` over entries that the backup lacks.
  pub send_missing-Sent :
      (entries bs : List WalEntry) (last_seq : ℕ) (w : Pair)
      → Follows codec bs w.backup
      → IsNumbered (length bs) entries
      → IsEncodable codec entries
      → length bs + length entries < 2 ^ 64
      → last_seq ≤ length bs
      → Sent (bs ++ entries) bs w (send_missing codec last_seq entries w)
  send_missing-Sent [] bs last_seq w f numbered encodable room low =
      unfold send_missing in (Kept-refl w, rw append-nil f)
  send_missing-Sent (e ∷ es) bs last_seq w f numbered encodable room low =
      let new : leb e.seq last_seq ≡ false = ground arith in
      let longer = length-append bs (e ∷ []) in
      subst (Sent (bs ++ e ∷ es) bs w) (sym (send_missing-new e es last_seq w new)) (
        go (send codec e w) (send-next e bs w f numbered.0 (omega arith) encodable.0) λ v g.
          send_missing-Sent es (bs ++ e ∷ []) last_seq (raise_last e.seq v) g (rw longer numbered.1)
            encodable.1 (omega arith) (omega arith))
    where
      go :
          (r : Option Error × Pair)
          → Sent (bs ++ e ∷ []) bs w r
          → ((v : Pair)
              → Follows codec (bs ++ e ∷ []) v.backup
              → Sent
                  ((bs ++ e ∷ []) ++ es)
                  (bs ++ e ∷ [])
                  (raise_last e.seq v)
                  (send_missing codec last_seq es (raise_last e.seq v)))
          → Sent (bs ++ e ∷ es) bs w (on_sent e es last_seq r)
      go (some x, v) s next = (s.0, Ahead-longer codec es (sym (append_assoc bs (e ∷ []) es)) s.1)
      go (none, v) s next =
          Sent-earlier (bs ++ e ∷ es) (bs ++ e ∷ []) bs (e ∷ []) w (raise_last e.seq v)
            (send_missing codec last_seq es (raise_last e.seq v)) refl
            (record { mem = s.0.mem; wal = s.0.wal })
            (subst
              (λ fs.
                Sent fs (bs ++ e ∷ []) (raise_last e.seq v)
                  (send_missing codec last_seq es (raise_last e.seq v)))
              (append_assoc bs (e ∷ []) es) (next v s.1))

  -- The entries that the backup has are passed over.
  pub send_missing-skip :
      (pre rest : List WalEntry) (n last_seq : ℕ) (w : Pair)
      → IsNumbered n pre
      → n + length pre ≤ last_seq
      → send_missing codec last_seq (pre ++ rest) w ≡ send_missing codec last_seq rest w
  unfolding send_missing
  send_missing-skip [] rest n last_seq w numbered old = refl
  send_missing-skip (e ∷ pre) rest n last_seq w numbered old =
      let known : leb e.seq last_seq ≡ true = ground arith in
      rw (known, send_missing)
        (send_missing-skip pre rest (n + 1) last_seq w numbered.1 (omega arith))
