-- ===== src/Store/Reservations/Queries.antt =====
-- What the queries return.
use drip_ex.Base.{
  if◌then◌else◌, ==_iff, Bool-cases, length, find?, select, All, Bytes, str_eq, str_eq_iff, Result,
  ok, ℕ, ◌+◌, ◌≡◌, refl, ap, subst, ◌∙◌, inl, inr, Bool, true, false, ◌&&◌, Option, none, some,
  List, [], ◌∷◌, arith,
}
use drip_ex.Names.{normalize_tunnel_type}
use drip_ex.Store.Reservations.{
  Reservation, StoreError, ReservationStore, table_store, trimmed, has_subdomain, has_port, one_row,
  get_reservation_by_subdomain, get_reservation_by_tcp_port, text_le, is_before, insert_sorted,
  sort_rows, is_bound_to, list_reservations_for_client,
}

-- What the resolver relies on: each query returns rows that answer it.
pub record IsFaithful (s : ReservationStore) : Type 0 where
  pub named :
      (name : Bytes) (r : Reservation) → s.by_subdomain name ≡ ok r → r.subdomain ≡ trimmed name
  pub on_port : (port : ℕ) (r : Reservation) → s.by_tcp_port port ≡ ok r → r.tcp_port ≡ port
  pub listed :
      (client kind : Bytes) (rs : List Reservation)
      → s.for_client client kind ≡ ok rs
      → All (λ r. (r.client_id ≡ some client) × (r.enabled ≡ true)) rs

found :
    (p : Reservation → Bool) (rows : List Reservation) (r : Reservation)
    → find? p rows ≡ some r
    → p r ≡ true
found p [] r e = cc
found p (q ∷ rows) r e = ground (arith, found p rows r)

All-insert_sorted :
    (P : Reservation → Type 0) (r : Reservation) (rows : List Reservation)
    → P r
    → All P rows
    → All P (insert_sorted r rows)
unfolding insert_sorted
All-insert_sorted P r [] p a = (p, tt)
All-insert_sorted P r (q ∷ rows) p a = elim (Bool-cases (is_before r q)) [
  | inl e ↦ rw e (p, a)
  | inr e ↦ rw e (a.0, All-insert_sorted P r rows p a.1)
]

All-sort_rows :
    (P : Reservation → Type 0) (rows : List Reservation) → All P rows → All P (sort_rows rows)
unfolding sort_rows
All-sort_rows P [] a = tt
All-sort_rows P (r ∷ rows) a = All-insert_sorted P r (sort_rows rows) a.0 (All-sort_rows P rows a.1)

All-select :
    (P : Reservation → Type 0) (p : Reservation → Bool)
    → ((r : Reservation) → p r ≡ true → P r)
    → (rows : List Reservation) → All P (select p rows)
All-select P p f [] = tt
All-select P p f (r ∷ rows) = elim (Bool-cases (p r)) [
  | inl e ↦ rw e (f r e, All-select P p f rows)
  | inr e ↦ rw e (All-select P p f rows)
]

eq_of_is_bound_to :
    (client : Bytes) (o : Option Bytes) → is_bound_to client o ≡ true → o ≡ some client
eq_of_is_bound_to client none e = cc
eq_of_is_bound_to client (some c) e = ap some ((str_eq_iff c client).0 e)

row_of : (o : Option Reservation) (r : Reservation) → one_row o ≡ ok r → o ≡ some r
row_of none r e = cc
row_of (some q) r e = cc

-- The table answers a query for a name by a row of the name, trimmed and in lower case, one for a
-- port by a row of the port, and one for a client by enabled rows of the client only.
pub table-IsFaithful : (rows : List Reservation) → IsFaithful (table_store rows)
unfolding table_store get_reservation_by_subdomain get_reservation_by_tcp_port
    list_reservations_for_client
table-IsFaithful rows = record {
  named = λ name r e.
      (str_eq_iff r.subdomain (trimmed name)).0
        (found (has_subdomain (trimmed name)) rows r (row_of _ r e));
  on_port = λ port r e. (==_iff r.tcp_port port).0 (found (has_port port) rows r (row_of _ r e));
  listed = λ client kind rs e.
      let answers : Reservation → Bool = λ r.
        is_bound_to client r.client_id
        && str_eq r.tunnel_type (normalize_tunnel_type kind)
        && r.enabled in
      let Fits : Reservation → Type 0 = λ r. (r.client_id ≡ some client) × (r.enabled ≡ true) in
      let same : sort_rows (select answers rows) ≡ rs = ground arith in
      subst (All Fits) same (
        All-sort_rows Fits _ (
          All-select Fits answers
            (λ r f. (eq_of_is_bound_to client r.client_id (ground arith), ground arith)) rows));
}

-- Each row stands before the next one in the order of creation, and of ids at equal times.
abbrev pub IsOrdered : List Reservation → Type 0
IsOrdered [] = Unit
IsOrdered (r ∷ []) = Unit
IsOrdered (r ∷ q ∷ rows) = (is_before r q ≡ true) × IsOrdered (q ∷ rows)

text_le_total : (s t : Bytes) → text_le s t ≡ false → text_le t s ≡ true
unfolding text_le
text_le_total [] t h = cc
text_le_total (c ∷ s) [] h = refl
text_le_total (c ∷ s) (d ∷ t) h = ground (arith, text_le_total s t)

is_before_total : (a b : Reservation) → is_before a b ≡ false → is_before b a ≡ true
unfolding is_before
is_before_total a b h = ground (arith, text_le_total a.id b.id)

insert-IsOrdered :
    (r : Reservation) (rows : List Reservation) → IsOrdered rows → IsOrdered (insert_sorted r rows)
unfolding insert_sorted
insert-IsOrdered r [] o = tt
insert-IsOrdered r (q ∷ []) o = elim (Bool-cases (is_before r q)) [
  | inl e ↦ rw e (e, tt)
  | inr e ↦ rw e (is_before_total r q e, tt)
]
insert-IsOrdered r (q ∷ p ∷ rows) o = elim (Bool-cases (is_before r q)) [
  | inl e ↦ rw e (e, o)
  | inr e ↦ rw e (insert_behind r q p rows e o.0 (insert-IsOrdered r (p ∷ rows) o.1))
]
  where
    insert_behind :
        (r q p : Reservation) (rows : List Reservation)
        → is_before r q ≡ false
        → is_before q p ≡ true
        → IsOrdered (insert_sorted r (p ∷ rows))
        → IsOrdered (q ∷ insert_sorted r (p ∷ rows))
    insert_behind r q p rows e f o = elim (Bool-cases (is_before r p)) [
      | inl g ↦ rw g (is_before_total r q e, rw g at o)
      | inr g ↦ rw g (f, rw g at o)
    ]

sort-IsOrdered : (rows : List Reservation) → IsOrdered (sort_rows rows)
unfolding sort_rows
sort-IsOrdered [] = tt
sort-IsOrdered (r ∷ rows) = insert-IsOrdered r (sort_rows rows) (sort-IsOrdered rows)

ok-injective :
    (xs ys : List Reservation)
    → ◌≡◌ {A = Result StoreError (List Reservation)} (ok xs) (ok ys)
    → xs ≡ ys
ok-injective xs ys e = cc

length-select-insert :
    (p : Reservation → Bool) (r : Reservation) (rows : List Reservation)
    → length (select p (insert_sorted r rows)) ≡ (if p r then 1 else 0) + length (select p rows)
unfolding insert_sorted
length-select-insert p r [] = ground arith
length-select-insert p r (q ∷ rows) = ground (arith, length-select-insert p r rows)

length-select-sort :
    (p : Reservation → Bool) (rows : List Reservation)
    → length (select p (sort_rows rows)) ≡ length (select p rows)
unfolding sort_rows
length-select-sort p [] = refl
length-select-sort p (r ∷ rows) =
    ground (arith, length-select-insert p r (sort_rows rows), length-select-sort p rows)

length-select-select :
    (p f : Reservation → Bool) (rows : List Reservation)
    → length (select p (select f rows)) ≡ length (select (λ r. f r && p r) rows)
length-select-select p f [] = refl
length-select-select p f (r ∷ rows) = ground (arith, length-select-select p f rows)

-- What the listing for a client and a family is after: the client's enabled rows of the family.
abbrev pub answers_client : Bytes → Bytes → Reservation → Bool
answers_client client kind r =
    is_bound_to client r.client_id && str_eq r.tunnel_type (normalize_tunnel_type kind) && r.enabled

-- A client's reservations come in the order of their creation, and they are exactly the enabled
-- rows of the client and the family: whatever test rows are counted by, as many pass it in the
-- answer as in the part of the table that is asked for.
pub list-IsOrdered :
    (rows rs : List Reservation) (client kind : Bytes) (p : Reservation → Bool)
    → list_reservations_for_client rows client kind ≡ ok rs
    → IsOrdered rs
      × (length (select p rs) ≡ length (select (λ r. answers_client client kind r && p r) rows))
unfolding list_reservations_for_client
list-IsOrdered rows rs client kind p e =
    let found = select (answers_client client kind) rows in
    let same : sort_rows found ≡ rs = ok-injective _ rs e in
    (
      subst IsOrdered same (sort-IsOrdered found),
      subst
          (λ t.
            length (select p t) ≡ length (select (λ r. answers_client client kind r && p r) rows))
          same
          (length-select-sort p found ∙ length-select-select p (answers_client client kind) rows),
    )
