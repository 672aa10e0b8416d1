-- ===== src/Notification/Fanout/Rounds.antt =====
-- The loop over the webhooks, round by round.
use realtime_chat_platform.Prelude.{
  ℕ, suc, ◌≡◌, ◌⊎◌, inl, inr, refl, sym, ap, ◌∙◌, subst, String, String_discrete, ℤ, ℤ_discrete,
  Bool, true, false, Bool-cases, List, [], ◌∷◌, ◌++◌, if_pos, All, All-append, arith,
}
use realtime_chat_platform.Notification.Domain.{Webhook, Delivery, MessageEvent, Recipient}
use realtime_chat_platform.Notification.Fanout.{
  Deliveries, has_row, create, FanoutError, recording_delivery, Fanned, new_delivery,
  add_recipients,
}

-- A row for the event and the user stays, whatever else is inserted.
pub Grows : List Delivery → List Delivery → Type 0
Grows before after = (e : String) (u : ℤ) → has_row e u before ≡ true → has_row e u after ≡ true

pub Grows-refl : (a : List Delivery) → Grows a a
unfolding Grows
Grows-refl a e u h = h

Grows-trans : (a b c : List Delivery) → Grows a b → Grows b c → Grows a c
unfolding Grows
Grows-trans a b c f g e u h = g e u (f e u h)

Grows-row : (d : Delivery) (ds : List Delivery) → Grows ds (d ∷ ds)
unfolding Grows has_row
Grows-row d ds e u h = ground arith

has_row_self : (d : Delivery) (ds : List Delivery) → has_row d.event_id d.user_id (d ∷ ds) ≡ true
unfolding has_row
has_row_self d ds =
    if_pos (String_discrete d.event_id d.event_id) refl _ _
    ∙ if_pos (ℤ_discrete d.user_id d.user_id) refl _ _

abbrev with_id : ℕ → Delivery → Delivery
with_id id d = record d { id = id }

abbrev grown : Deliveries → Delivery → Deliveries
grown table d = record { next_id = suc table.next_id; rows = with_id table.next_id d ∷ table.rows }

module _ (event : MessageEvent) where
  -- Whether the table has a row for the event and the user of a webhook.
  abbrev pub is_told : Deliveries → Webhook → Bool
  is_told table w = has_row event.event_id w.user_id table.rows

  abbrev row_of : Deliveries → Webhook → Delivery
  row_of table w = with_id table.next_id (new_delivery event w)

  abbrev told : Deliveries → Webhook → Deliveries
  told table w = grown table (new_delivery event w)

  abbrev appended : List Recipient → Deliveries → Webhook → List Recipient
  appended acc table w = acc ++ (record { webhook = w; delivery = row_of table w } ∷ [])

  -- On success every webhook has its row.
  abbrev pub RecordedIn : Deliveries → List Webhook → List Recipient ⊎ FanoutError → Type 0
  RecordedIn table ws (inl rs) = All (λ w. has_row event.event_id w.user_id table.rows ≡ true) ws
  RecordedIn table ws (inr e) = Unit

  Recorded_one :
      (w : Webhook) (ws : List Webhook) (table : Deliveries) (r : List Recipient ⊎ FanoutError)
      → is_told table w ≡ true
      → RecordedIn table ws r
      → RecordedIn table (w ∷ ws) r
  Recorded_one w ws table (inl rs) h r = (h, r)
  Recorded_one w ws table (inr e) h r = tt

  -- On success every recipient is one of the webhooks, had no row in the table `before`, and has
  -- one now.
  abbrev pub IsNew : (Webhook → Type 0) → Deliveries → Recipient → Type 0
  IsNew Q before r = Q r.webhook × (is_told before r.webhook ≡ false)

  abbrev pub AllNew : (Webhook → Type 0) → Deliveries → List Recipient ⊎ FanoutError → Type 0
  AllNew Q before (inl rs) = All (IsNew Q before) rs
  AllNew Q before (inr e) = Unit

module _ (insert_fails : ℤ → Bool) (event : MessageEvent) where
  abbrev pub add : List Webhook → List Recipient → Deliveries → Fanned
  add webhooks acc table = add_recipients insert_fails event webhooks acc table

  -- What the loop does for one webhook: skip it, stop, or add it.
  data Round (w : Webhook) (ws : List Webhook) (acc : List Recipient) (table : Deliveries)
      : Type 0 where
    skips :
        is_told event table w ≡ true
        → add (w ∷ ws) acc table ≡ add ws acc table
        → Round w ws acc table
    stops :
        insert_fails w.user_id ≡ true
        → add (w ∷ ws) acc table
          ≡ record { table = table; result = inr (recording_delivery w.user_id) }
        → Round w ws acc table
    adds :
        is_told event table w ≡ false
        → add (w ∷ ws) acc table ≡ add ws (appended event acc table w) (told event table w)
        → Round w ws acc table

  Round-cases :
      (w : Webhook) (ws : List Webhook) (acc : List Recipient) (table : Deliveries)
      → Round w ws acc table
  unfolding add_recipients create new_delivery
  Round-cases w ws acc table = elim (Bool-cases (insert_fails w.user_id)) [
    | inl bad ↦ stops bad (ground arith)
    | inr fine ↦ elim (Bool-cases (is_told event table w)) [
      | inl old ↦ skips old (ground arith)
      | inr new ↦ adds new (ground arith)
    ]
  ]

  is_told-grown :
      (table : Deliveries) (w x : Webhook)
      → is_told event table x ≡ true
      → is_told event (told event table w) x ≡ true
  unfolding Grows
  is_told-grown table w x h = Grows-row (row_of event table w) table.rows event.event_id x.user_id h

  is_told_self : (table : Deliveries) (w : Webhook) → is_told event (told event table w) w ≡ true
  unfolding new_delivery
  is_told_self table w = has_row_self (row_of event table w) table.rows

  -- A row that is there stays to the end.
  add-is_told :
      (x : Webhook) (ws : List Webhook) (acc : List Recipient) (table : Deliveries)
      → is_told event table x ≡ true
      → is_told event (add ws acc table).table x ≡ true
  unfolding add_recipients
  add-is_told x [] acc table h = h
  add-is_told x (w ∷ ws) acc table h = elim (Round-cases w ws acc table) [
    | skips old e ↦ ap (λ f. is_told event f.table x) e ∙ add-is_told x ws acc table h
    | stops bad e ↦ ap (λ f. is_told event f.table x) e ∙ h
    | adds new e ↦
        ap (λ f. is_told event f.table x) e
        ∙ add-is_told x ws (appended event acc table w) (told event table w)
            (is_told-grown table w x h)
  ]

  abbrev pub Recorded : List Webhook → Fanned → Type 0
  Recorded ws f = RecordedIn event f.table ws f.result

  pub add-Recorded :
      (ws : List Webhook) (acc : List Recipient) (table : Deliveries)
      → Recorded ws (add ws acc table)
  unfolding add_recipients
  add-Recorded [] acc table = tt
  add-Recorded (w ∷ ws) acc table = elim (Round-cases w ws acc table) [
    | skips old e ↦ subst (Recorded (w ∷ ws)) (sym e) (
        Recorded_one event w ws (add ws acc table).table (add ws acc table).result
          (add-is_told w ws acc table old) (add-Recorded ws acc table))
    | stops bad e ↦ subst (Recorded (w ∷ ws)) (sym e) tt
    | adds new e ↦
        let acc2 = appended event acc table w in
        subst (Recorded (w ∷ ws)) (sym e) (
          Recorded_one event w ws (add ws acc2 (told event table w)).table
            (add ws acc2 (told event table w)).result
            (add-is_told w ws acc2 (told event table w) (is_told_self table w))
            (add-Recorded ws acc2 (told event table w)))
  ]

  module _ (Q : Webhook → Type 0) (before : Deliveries) where
    not_before :
        (table : Deliveries) (w : Webhook)
        → Grows before.rows table.rows
        → is_told event table w ≡ false
        → is_told event before w ≡ false
    unfolding Grows
    not_before table w g new = elim (Bool-cases (is_told event before w)) [
      | inl old ↦ absurd (let now = g event.event_id w.user_id old in cc)
      | inr none_ ↦ none_
    ]

    pub add-AllNew :
        (ws : List Webhook) (acc : List Recipient) (table : Deliveries)
        → All Q ws
        → Grows before.rows table.rows
        → All (IsNew event Q before) acc
        → AllNew event Q before (add ws acc table).result
    unfolding add_recipients
    add-AllNew [] acc table q g v = v
    add-AllNew (w ∷ ws) acc table q g v = elim (Round-cases w ws acc table) [
      | skips old e ↦
          subst (λ f. AllNew event Q before f.result) (sym e) (add-AllNew ws acc table q.1 g v)
      | stops bad e ↦ subst (λ f. AllNew event Q before f.result) (sym e) tt
      | adds new e ↦
          subst (λ f. AllNew event Q before f.result) (sym e)
            (add-AllNew ws (appended event acc table w) (told event table w) q.1
              (Grows-trans before.rows table.rows (told event table w).rows g
                (Grows-row (row_of event table w) table.rows))
              (All-append (IsNew event Q before) acc _ v ((q.0, not_before table w g new), tt)))
    ]

module _ (event : MessageEvent) where
  -- When all webhooks have their rows and the database works, nothing happens.
  pub add_again :
      (ws : List Webhook) (acc : List Recipient) (table : Deliveries)
      → All (λ w. has_row event.event_id w.user_id table.rows ≡ true) ws
      → add (λ _. false) event ws acc table ≡ record { table = table; result = inl acc }
  unfolding add_recipients
  add_again [] acc table h = refl
  add_again (w ∷ ws) acc table h = elim (Round-cases (λ _. false) event w ws acc table) [
    | skips old e ↦ e ∙ add_again ws acc table h.1
    | stops bad e ↦ absurd cc
    | adds new e ↦ absurd (let old = h.0 in cc)
  ]
