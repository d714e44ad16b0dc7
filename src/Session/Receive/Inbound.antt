-- ===== src/Session/Receive/Inbound.antt =====
-- Publications of quality 2 as they come in to an MQTT stream: held once, and released once.
use c_mx.Common.{ℕ, true, false, some, List, [], ◌∷◌, ◌++◌, length}
use c_mx.Common.{
  if◌then◌else◌, ◌==◌, arith, ◌≡◌, refl, sym, ap, ◌∙◌, Bool-cases, inl, inr, append_assoc,
  append-nil,
}
use c_mx.Mqtt.Frame.{FixedHeader}
use c_mx.Session.{Item, Session, World, is_frame, remove_frame, append_frame}
use c_mx.Session.Receive.{hold, release, release_item}

-- The frames of a queue with another identifier, and those with this one.
unfoldable pub others : ℕ → List Item → List Item
others id [] = []
others id (item ∷ queue) = let rest = others id queue in if item.id == id then rest else item ∷ rest

unfoldable pub matching : ℕ → List Item → List Item
matching id [] = []
matching id (item ∷ queue) =
    let rest = matching id queue in if item.id == id then item ∷ rest else rest

-- Removing twice is removing once, and an appended frame is removed again.
remove_frame-append :
    (queue : List Item) (kind flags id : ℕ) (body : List ℕ)
    → (remove_frame (append_frame (remove_frame queue kind id).1 kind flags id body) kind id).1
      ≡ (remove_frame queue kind id).1
unfolding remove_frame append_frame is_frame
remove_frame-append [] kind flags id body =
    let k : (kind == kind) ≡ true = ground arith in
    let i : (id == id) ≡ true = ground arith in rw (k, i)
remove_frame-append (item ∷ queue) kind flags id body =
    let rest = remove_frame-append queue kind flags id body in
    elim (Bool-cases (is_frame kind id item)) [
      | inl hit ↦ rw hit rest
      | inr miss ↦ rw (miss, miss) (ap (λ t. item ∷ t) rest)
    ]

-- A publication that is sent again before it is released takes the place of the first.
pub hold-hold :
    (w : World) (self : Session) (frame again : FixedHeader) (id : ℕ) (body body' : List ℕ)
    → frame.kind ≡ again.kind
    → hold w (hold w self frame id body) again id body' ≡ hold w self again id body'
unfolding hold
hold-hold w self frame again id body body' e =
    rw (e, remove_frame-append self.inbound again.kind frame.flags id body)

release_item_lem :
    (w : World) (self : Session) (item : Item)
    → self.observed ≡ false
    → release_item w self item ≡ some (record self { incoming = self.incoming ++ (item ∷ []) })
unfolding release_item
release_item_lem w self item quiet = elim (Bool-cases (item.kind == 3)) [
  | inl publication ↦ rw (publication, quiet)
  | inr other ↦ rw other
]

-- With no observer, the loop moves the frames with the identifier to the incoming queue, in order, and
-- leaves the others.
pub release_lem :
    (w : World) (id : ℕ) (kept items : List Item) (self : Session)
    → self.observed ≡ false
    → self.inbound ≡ kept ++ items
    → release w id kept items self
      ≡ some (record self {
        inbound = kept ++ others id items;
        incoming = self.incoming ++ matching id items;
      })
unfolding release others matching
release_lem w id kept [] self quiet e =
    ap (λ q. some (record self { inbound = q; incoming = self.incoming })) e
    ∙ ap (λ q. some (record self { inbound = kept ++ []; incoming = q }))
        (sym (append-nil self.incoming))
release_lem w id kept (item ∷ items) self quiet e = elim (Bool-cases (item.id == id)) [
  | inl hit ↦
      rw (hit, release_item_lem w (record self { inbound = kept ++ items }) item quiet)
        (release_lem w id kept items
            (record self { inbound = kept ++ items; incoming = self.incoming ++ (item ∷ []) }) quiet
            refl
          ∙ ap (λ q. some (record self { inbound = kept ++ others id items; incoming = q }))
              (append_assoc self.incoming (item ∷ []) (matching id items)))
  | inr miss ↦ rw miss (
      release_lem w id (kept ++ (item ∷ [])) items self quiet
        (e ∙ sym (append_assoc kept (item ∷ []) items))
      ∙ ap (λ q. some (record self { inbound = q; incoming = self.incoming ++ matching id items }))
          (append_assoc kept (item ∷ []) (others id items)))
]

-- Queues without a frame of the identifier.
pub matching-append :
    (id : ℕ) (xs ys : List Item) → matching id (xs ++ ys) ≡ matching id xs ++ matching id ys
unfolding matching
matching-append id [] ys = refl
matching-append id (x ∷ xs) ys = elim (Bool-cases (x.id == id)) [
  | inl hit ↦ rw hit (ap (λ t. x ∷ t) (matching-append id xs ys))
  | inr miss ↦ rw miss (matching-append id xs ys)
]

pub others-append :
    (id : ℕ) (xs ys : List Item) → others id (xs ++ ys) ≡ others id xs ++ others id ys
unfolding others
others-append id [] ys = refl
others-append id (x ∷ xs) ys = elim (Bool-cases (x.id == id)) [
  | inl hit ↦ rw hit (others-append id xs ys)
  | inr miss ↦ rw miss (ap (λ t. x ∷ t) (others-append id xs ys))
]

pub absent_lem :
    (kind id : ℕ) (queue : List Item)
    → matching id queue ≡ []
    → ((remove_frame queue kind id).1 ≡ queue) × (others id queue ≡ queue)
unfolding matching others remove_frame is_frame
absent_lem kind id [] e = (refl, refl)
absent_lem kind id (x ∷ queue) e = elim (Bool-cases (x.id == id)) [
  | inl hit ↦
      let impossible : x ∷ matching id queue ≡ [] = rw hit at e in
      absurd (omega (arith, ap (λ (t : List Item). length t) impossible))
  | inr miss ↦
      let (removed, left) = absent_lem kind id queue (rw miss at e) in
      elim (Bool-cases (x.kind == kind)) [
        | inl same ↦ (rw (same, miss) (ap (λ t. x ∷ t) removed), rw miss (ap (λ t. x ∷ t) left))
        | inr differs ↦ (rw differs (ap (λ t. x ∷ t) removed), rw miss (ap (λ t. x ∷ t) left))
      ]
]
