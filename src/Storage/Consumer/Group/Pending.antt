-- ===== src/Storage/Consumer/Group/Pending.antt =====
-- main.rs: an entry that was not acknowledged when it was handled is never handled again.
use polite_web_crawler.Prelude.{
  ℕ, zero, suc, ◌≡◌, refl, ◌∙◌, subst, Bool, true, false, String, List, [], ◌∷◌, ◌++◌, any, take,
  drop, All, str_eq, str_eq_iff, if◌then◌else◌, Bool-cases, inl, inr, any-append,
}
use polite_web_crawler.Common.Outcome.{Outcome, ok, err, panic}
use polite_web_crawler.Common.Data.{ParsedData}
use polite_web_crawler.Storage.Service.{Env, CrawlerStorage}
use polite_web_crawler.Storage.Consumer.{
  StreamEntry, Connections, Consumer, after_entry, handle_entry, go_on, run_entries,
  process_stream_entry,
}
use polite_web_crawler.Storage.Consumer.Group.{
  GroupEvent, added, reads, read_fails, shut_down, ids, batch, with_connections, Group,
  unacknowledged, after_batch, read_new, group_step, group_run,
}

-- No entry has the id.
abbrev pub NotIn : String → List StreamEntry → Type 0
NotIn id es = All (λ (e : StreamEntry). str_eq id e.id ≡ false) es

-- No event adds an entry of the id.
abbrev pub NotAdded : String → List GroupEvent → Type 0
NotAdded id [] = Unit
NotAdded id (added e ∷ es) = (str_eq id e.id ≡ false) × NotAdded id es
NotAdded id (e ∷ es) = NotAdded id es

take-NotIn : (id : String) (n : ℕ) (es : List StreamEntry) → NotIn id es → NotIn id (take n es)
take-NotIn id zero es h = tt
take-NotIn id (suc n) [] h = tt
take-NotIn id (suc n) (e ∷ es) (h, hs) = (h, take-NotIn id n es hs)

drop-NotIn : (id : String) (n : ℕ) (es : List StreamEntry) → NotIn id es → NotIn id (drop n es)
drop-NotIn id zero es h = h
drop-NotIn id (suc n) [] h = tt
drop-NotIn id (suc n) (e ∷ es) (h, hs) = drop-NotIn id n es hs

append-NotIn :
    (id : String) (es : List StreamEntry) (e : StreamEntry)
    → NotIn id es
    → str_eq id e.id ≡ false
    → NotIn id (es ++ e ∷ [])
append-NotIn id [] e h k = (k, tt)
append-NotIn id (d ∷ es) e (h, hs) k = (h, append-NotIn id es e hs k)

module _ {Url Robot F32 Filter Store : Type 0} (env : Env Url Robot F32 Filter Store)
    (from_json : String → Outcome (ParsedData F32)) (id : String) where
  abbrev acked : Consumer env → Bool
  acked x = any (str_eq id) x.acknowledged

  after_entry-acked :
      (x : Consumer env) (e : StreamEntry) (c : Connections)
      (r : Outcome (List String) × CrawlerStorage F32 Filter Store)
      → str_eq id e.id ≡ false
      → acked (after_entry env x e c r).1 ≡ acked x
  unfolding after_entry
  after_entry-acked x e c (err y, s) h = refl
  after_entry-acked x e c (panic, s) h = refl
  after_entry-acked x e c (ok urls, s) h = elim (Bool-cases c.acks) [
    | inl acks ↦ rw acks (rw h)
    | inr lost ↦ rw lost
  ]

  handle_entry-acked :
      (x : Consumer env) (e : StreamEntry) (c : Connections)
      → str_eq id e.id ≡ false
      → acked (handle_entry env from_json x e c).1 ≡ acked x
  unfolding handle_entry
  handle_entry-acked x e c =
      after_entry-acked x e c (process_stream_entry env from_json x.storage e c)

  go_on-acked :
      (b : Bool) (r : Outcome (Unit {0}) × Consumer env) (more : Outcome (Unit {0}) × Consumer env)
      → acked r.1 ≡ b
      → acked more.1 ≡ b
      → acked (go_on env r more).1 ≡ b
  unfolding go_on
  go_on-acked b (ok _, x) more h k = k
  go_on-acked b (err e, x) more h k = h
  go_on-acked b (panic, x) more h k = h

  run_entries-acked :
      (es : List StreamEntry) (c : ℕ → Connections) (k : ℕ) (x : Consumer env)
      → NotIn id es
      → acked (run_entries env from_json x (with_connections c k es)).1 ≡ acked x
  unfolding run_entries with_connections
  run_entries-acked [] c k x h = refl
  run_entries-acked (e ∷ es) c k x (h, hs) =
      let handled = handle_entry env from_json x e (c k) in
      let first = handle_entry-acked x e (c k) h in
      go_on-acked (acked x) handled _ first (run_entries-acked es c (suc k) handled.1 hs ∙ first)

  unacknowledged-keeps :
      (acked pending : List String)
      → any (str_eq id) acked ≡ false
      → any (str_eq id) pending ≡ true
      → any (str_eq id) (unacknowledged env from_json acked pending) ≡ true
  unfolding unacknowledged
  unacknowledged-keeps acked [] h k = k
  unacknowledged-keeps acked (p ∷ ps) h k = elim (Bool-cases (str_eq id p)) [
    | inl same ↦
        let e : any (str_eq p) acked ≡ false =
          subst (λ q. any (str_eq q) acked ≡ false) ((str_eq_iff id p).0 same) h in
        rw e (rw same)
    | inr other ↦ elim (Bool-cases (any (str_eq p) acked)) [
      | inl gone ↦ rw gone (unacknowledged-keeps acked ps h (rw other at k))
      | inr stays ↦ rw stays (rw other (unacknowledged-keeps acked ps h (rw other at k)))
    ]
  ]

  -- The entry is pending, was not acknowledged, and is not among those still to be delivered.
  pub record IsStuck (g : Group env from_json) : Type 0 where
    pub pending : any (str_eq id) g.pending ≡ true
    pub not_acknowledged : any (str_eq id) g.consumer.acknowledged ≡ false
    pub not_undelivered : NotIn id g.undelivered

  after_batch-pending :
      (g : Group env from_json) (rest : List StreamEntry) (x : Outcome (Unit {0}) × Consumer env)
      → any (str_eq id) g.pending ≡ true
      → acked x.1 ≡ false
      → NotIn id rest
      → IsStuck (after_batch env from_json g rest x)
  unfolding after_batch
  after_batch-pending g rest (r, x) p a n = record {
    pending = unacknowledged-keeps x.acknowledged g.pending a p;
    not_acknowledged = a;
    not_undelivered = n;
  }

  read_new-IsStuck :
      (g : Group env from_json) (c : ℕ → Connections)
      → IsStuck g
      → IsStuck (read_new env from_json g c)
  unfolding read_new
  read_new-IsStuck g c s =
      after_batch-pending (record g { pending = g.pending ++ ids (take batch g.undelivered) })
        (drop batch g.undelivered) _
        (any-append (str_eq id) g.pending (ids (take batch g.undelivered)) ∙ rw s.pending)
        (run_entries-acked (take batch g.undelivered) c 0 g.consumer
            (take-NotIn id batch g.undelivered s.not_undelivered)
          ∙ s.not_acknowledged)
        (drop-NotIn id batch g.undelivered s.not_undelivered)

  read_if-IsStuck :
      (b : Bool) (g : Group env from_json) (c : ℕ → Connections)
      → IsStuck g
      → IsStuck (if b then read_new env from_json g c else g)
  read_if-IsStuck true g c s = read_new-IsStuck g c s
  read_if-IsStuck false g c s = s

  -- An entry that is pending and was not acknowledged stays so for ever: whatever the consumer reads,
  -- the workers add under other ids, and the connections do, it is never acknowledged, since only
  -- entries that were never delivered are read.
  pub pending_for_ever :
      (es : List GroupEvent) (g : Group env from_json)
      → NotAdded id es
      → IsStuck g
      → IsStuck (group_run env from_json es g)
  unfolding group_run group_step
  pending_for_ever [] g h s = s
  pending_for_ever (added e ∷ es) g (h, hs) s = pending_for_ever es _ hs (record {
    pending = s.pending;
    not_acknowledged = s.not_acknowledged;
    not_undelivered = append-NotIn id g.undelivered e s.not_undelivered h;
  })
  pending_for_ever (reads c ∷ es) g h s = pending_for_ever es _ h (read_if-IsStuck g.running g c s)
  pending_for_ever (read_fails ∷ es) g h s = pending_for_ever es g h s
  pending_for_ever (shut_down ∷ es) g h s = pending_for_ever es _ h (record {
    pending = s.pending;
    not_acknowledged = s.not_acknowledged;
    not_undelivered = s.not_undelivered;
  })
