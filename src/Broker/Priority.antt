-- ===== src/Broker/Priority.antt =====
-- The order of the messages of a queue, which `client_request` keeps by `insert_message`.
use mathlib.Core.List.{reverse, reverse-append, reverse-cons, reverse-reverse, append_assoc}
use ijson.Prelude.{
  ◌≡◌, refl, sym, subst, ◌∙◌, ap, inl, inr, true, false, List, [], ◌∷◌, ◌++◌, Bool-cases, arith,
}
use ijson.Prelude.Int.{leb_ℤ}
use ijson.Broker.{Message}
use ijson.Broker.Queues.{insert_back, insert_message}

-- The second message has at least the priority of the first.
abbrev pub AtLeast : Message → Message → Type 0
AtLeast m x = leb_ℤ m.priority x.priority ≡ true

abbrev pub All : (Message → Type 0) → List Message → Type 0
All P [] = Unit {0}
All P (x ∷ xs) = P x × All P xs

-- From the front, no message has a lower priority than a later one.
abbrev pub IsOrdered : List Message → Type 0
IsOrdered [] = Unit {0}
IsOrdered (x ∷ xs) = All (λ y. AtLeast y x) xs × IsOrdered xs

-- `m` stands behind all messages of at least its priority and before all lower ones.
pub record Inserted (m : Message) (ms r : List Message) : Type 0 where
  pub front : List Message
  pub back : List Message
  pub split : ms ≡ front ++ back
  pub result : r ≡ front ++ m ∷ back
  pub higher : All (AtLeast m) front
  pub lower : All (λ y. leb_ℤ m.priority y.priority ≡ false) back

All-append : (P : Message → Type 0) (xs ys : List Message) → All P xs → All P ys → All P (xs ++ ys)
All-append P [] ys h k = k
All-append P (x ∷ xs) ys h k = (h.0, All-append P xs ys h.1 k)

All-reverse : (P : Message → Type 0) (xs : List Message) → All P xs → All P (reverse xs)
All-reverse P [] h = tt
All-reverse P (x ∷ xs) h =
    subst (All P) (sym (reverse-cons x xs))
      (All-append P (reverse xs) (x ∷ []) (All-reverse P xs h.1) (h.0, tt))

-- Seen from the back: no message has a higher priority than a later one.
abbrev IsRising : List Message → Type 0
IsRising [] = Unit {0}
IsRising (x ∷ xs) = All (λ y. AtLeast x y) xs × IsRising xs

atleast_trans : (x y z : Message) → AtLeast x y → AtLeast y z → AtLeast x z
atleast_trans x y z h k = ground arith

All-atleast :
    (m x : Message) (xs : List Message) → AtLeast m x → All (AtLeast x) xs → All (AtLeast m) xs
All-atleast m x [] h k = tt
All-atleast m x (y ∷ ys) h k = (atleast_trans m x y h k.0, All-atleast m x ys h k.1)

record InsertedBack (m : Message) (xs r : List Message) : Type 0 where
  front : List Message
  back : List Message
  split : xs ≡ front ++ back
  result : r ≡ front ++ m ∷ back
  lower : All (λ y. leb_ℤ m.priority y.priority ≡ false) front
  higher : All (AtLeast m) back

insert_back_lem :
    (m : Message) (xs : List Message) → IsRising xs → InsertedBack m xs (insert_back m xs)
insert_back_lem m [] h =
    unfold insert_back in
    record { front = []; back = []; split = refl; result = refl; lower = tt; higher = tt }
insert_back_lem m (x ∷ xs) h = elim (Bool-cases (leb_ℤ m.priority x.priority)) [
  | inl e ↦ record {
    front = [];
    back = x ∷ xs;
    split = refl;
    result = step m x xs e;
    lower = tt;
    higher = (e, All-atleast m x xs e h.0);
  }
  | inr e ↦
      let r = insert_back_lem m xs h.1 in
      record {
        front = x ∷ r.front;
        back = r.back;
        split = ap (◌∷◌ x) r.split;
        result = next m x xs e ∙ ap (◌∷◌ x) r.result;
        lower = (e, r.lower);
        higher = r.higher;
      }
]
  where
    step : (m x : Message) (xs : List Message) → AtLeast m x → insert_back m (x ∷ xs) ≡ m ∷ x ∷ xs
    step m x xs e = unfold insert_back in rw e

    next :
        (m x : Message) (xs : List Message)
        → leb_ℤ m.priority x.priority ≡ false
        → insert_back m (x ∷ xs) ≡ x ∷ insert_back m xs
    next m x xs e = unfold insert_back in rw e

IsRising-snoc :
    (xs : List Message) (x : Message)
    → IsRising xs
    → All (λ y. AtLeast y x) xs
    → IsRising (xs ++ x ∷ [])
IsRising-snoc [] x h k = (tt, tt)
IsRising-snoc (y ∷ ys) x h k =
    (All-append (λ z. AtLeast y z) ys (x ∷ []) h.0 (k.0, tt), IsRising-snoc ys x h.1 k.1)

IsRising-reverse : (ms : List Message) → IsOrdered ms → IsRising (reverse ms)
IsRising-reverse [] h = tt
IsRising-reverse (x ∷ xs) h =
    subst IsRising (sym (reverse-cons x xs)) (
      IsRising-snoc (reverse xs) x (IsRising-reverse xs h.1)
        (All-reverse (λ y. AtLeast y x) xs h.0))

-- In a queue in order of priority a new message goes behind every message of at least its own
-- priority and before every message of a lower one, and the others keep their places.
pub insert_message_lem :
    (m : Message) (ms : List Message) → IsOrdered ms → Inserted m ms (insert_message m ms)
unfolding insert_message
insert_message_lem m ms h =
    let r = insert_back_lem m (reverse ms) (IsRising-reverse ms h) in
    record {
      front = reverse r.back;
      back = reverse r.front;
      split = sym (reverse-reverse ms) ∙ ap reverse r.split ∙ reverse-append r.front r.back;
      result =
          ap reverse r.result
          ∙ reverse-append r.front (m ∷ r.back)
          ∙ ap (λ t. t ++ reverse r.front) (reverse-cons m r.back)
          ∙ append_assoc (reverse r.back) (m ∷ []) (reverse r.front);
      higher = All-reverse (AtLeast m) r.back r.higher;
      lower = All-reverse (λ y. leb_ℤ m.priority y.priority ≡ false) r.front r.lower;
    }

below :
    (m : Message) (ys : List Message)
    → All (λ y. leb_ℤ m.priority y.priority ≡ false) ys
    → All (λ y. AtLeast y m) ys
below m [] l = tt
below m (y ∷ ys) l = (turn m y l.0, below m ys l.1)
  where
    turn : (m y : Message) → leb_ℤ m.priority y.priority ≡ false → AtLeast y m
    turn m y e = ground arith

All-insert :
    (P : Message → Type 0) (m : Message) (xs ys : List Message)
    → All P (xs ++ ys)
    → P m
    → All P (xs ++ m ∷ ys)
All-insert P m [] ys h k = (k, h)
All-insert P m (x ∷ xs) ys h k = (h.0, All-insert P m xs ys h.1 k)

IsOrdered-insert :
    (m : Message) (front back : List Message)
    → IsOrdered (front ++ back)
    → All (AtLeast m) front
    → All (λ y. leb_ℤ m.priority y.priority ≡ false) back
    → IsOrdered (front ++ m ∷ back)
IsOrdered-insert m [] back o h l = (below m back l, o)
IsOrdered-insert m (x ∷ xs) back o h l =
    (All-insert (λ y. AtLeast y x) m xs back o.0 h.0, IsOrdered-insert m xs back o.1 h.1 l)

-- A queue in order of priority is still in order of priority after an insertion.
pub insert_message-IsOrdered :
    (m : Message) (ms : List Message) → IsOrdered ms → IsOrdered (insert_message m ms)
insert_message-IsOrdered m ms h =
    let r = insert_message_lem m ms h in
    subst IsOrdered (sym r.result)
      (IsOrdered-insert m r.front r.back (subst IsOrdered r.split h) r.higher r.lower)
