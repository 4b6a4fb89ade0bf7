-- ===== src/Data/Access/Tickets.antt =====
-- `create_id`: each id is the ticket of its kind, and the next one is greater.
use tp.Common.{ℕ, ◌+◌, ◌%◌, ◌≡◌, ◌≢◌, refl, sym, ap, ◌∙◌, true, false, Option, none, some, arith}
use tp.Text.{Text, text_eq_refl}
use tp.Text.Decimal.{value, stoul, stoul-to_string, to_string, word}
use tp.World.{
  Platform, Reply, found, not_found, get_error, Content, put_content, World, done, pure,
  return_false, require,
}
use tp.World.Inversion.{binding, converting, pure-done, require-done}
use tp.Db
use tp.Db.Laws.{stored}
use tp.Data.Keys.{generate_ticket_key}
use tp.Data.Access.{create_id, take_ticket}
use tp.Data.Access.Reading.{get_stored}

some_eq : (a b : Text) → some a ≡ some b → a ≡ b
some_eq a b h = ground arith

value_ne : (n m : ℕ) → value n ≡ value m → n ≡ m
value_ne n m h = ground arith

module _ ⦃P : Platform⦄ where
  -- What a ticket that is taken leaves behind.
  pub record Taken (kind id : Text) (w w' : World) : Type 0 where
    pub ticket : ℕ
    pub reads : stoul id ≡ value ticket
    pub before : stored w (generate_ticket_key kind) ≡ some id
    pub after :
        stored w'
        ≡ put_content (generate_ticket_key kind) (to_string ((ticket + 1) % word)) (stored w)

  none_written : (w : World) {w' : World} → pure false w ≡ (done true, w') → ⊥
  unfolding pure
  none_written w h = cc

  put_at :
      (key v : Text) (w : World) {w' : World} (o : Option P.rocks.Handle)
      → Db.put key v (record w { db = o }) ≡ (done true, w')
      → stored w' ≡ put_content key v (stored (record w { db = o }))
  unfolding Db.put
  put_at key v w none h = absurd (none_written _ h)
  put_at key v w (some d) h =
      let (ok, same) =
        pure-done (P.rocks.put d key v).0 (record w { db = some (P.rocks.put d key v).1 }) h in
      rw same (P.rocks.content-put d key v ∙ rw ok)

  pub put-done :
      (key v : Text) (w : World) {w' : World}
      → Db.put key v w ≡ (done true, w')
      → stored w' ≡ put_content key v (stored w)
  put-done key v w h = put_at key v w w.db h

  take_at :
      (kind id : Text) {id' : Text} (w : World) {w' : World}
      → stored w (generate_ticket_key kind) ≡ some id
      → take_ticket kind (found id) w ≡ (done id', w')
      → Taken kind id' w w'
  unfolding take_ticket
  take_at kind id w s h = converting (stoul id) _ w h λ n read rest.
      binding (require (Db.put (generate_ticket_key kind) (to_string ((n + 1) % word)))) _ w rest
        λ _ w1 put last.
          let (same, done_w) = pure-done id w1 last in
          record {
            ticket = n;
            reads = rw (← same) read;
            before = rw (← same) s;
            after = rw done_w (put-done _ _ w (require-done _ w put));
          }

  create_at :
      (kind : Text) {id : Text} (w : World) {w' : World} (r : Reply)
      → Db.get (generate_ticket_key kind) w ≡ r
      → take_ticket kind r w ≡ (done id, w')
      → Taken kind id w w'
  unfolding take_ticket return_false
  create_at kind w (found id) e h = take_at kind id w (get_stored _ id w e) h
  create_at kind w not_found e h = cc
  create_at kind w get_error e h = cc

  -- A new id is what the ticket was, and the ticket is now the next number.
  pub create_id-Taken :
      (kind id : Text) (w : World) {w' : World}
      → create_id kind w ≡ (done id, w')
      → Taken kind id w w'
  unfolding create_id
  create_id-Taken kind id w h = create_at kind w (Db.get (generate_ticket_key kind) w) refl h

  next_ticket :
      (kind a b : Text) (w w1 w2 w3 : World) (t : Taken kind a w w1) (u : Taken kind b w2 w3)
      → stored w2 (generate_ticket_key kind) ≡ stored w1 (generate_ticket_key kind)
      → b ≡ to_string ((t.ticket + 1) % word)
  next_ticket kind a b w w1 w2 w3 t u kept =
      let key = generate_ticket_key kind in
      let next = to_string ((t.ticket + 1) % word) in
      let held : stored w1 key ≡ some next =
        ap (λ (c : Content). c key) t.after ∙ rw (text_eq_refl key) in
      some_eq b next (sym u.before ∙ kept ∙ held)

  -- Ids of one kind that are created one after the other, with the ticket untouched in between, are
  -- different, and the later one is the next number.
  pub create_id_fresh :
      (kind a b : Text) (w w1 w2 w3 : World)
      → create_id kind w ≡ (done a, w1)
      → stored w2 (generate_ticket_key kind) ≡ stored w1 (generate_ticket_key kind)
      → create_id kind w2 ≡ (done b, w3)
      → (n : ℕ) × (stoul a ≡ value n) × (b ≡ to_string ((n + 1) % word)) × (a ≢ b)
  create_id_fresh kind a b w w1 w2 w3 first kept second =
      let t = create_id-Taken kind a w first in
      let next = next_ticket kind a b w w1 w2 w3 t (create_id-Taken kind b w2 second) kept in
      let n = t.ticket in
      (
        n,
        t.reads,
        next,
        λ same.
            let back : n ≡ (n + 1) % word = value_ne n _ (
              sym t.reads
              ∙ ap stoul (same ∙ next)
              ∙ stoul-to_string ((n + 1) % word) (omega arith)) in
            omega arith,
      )
