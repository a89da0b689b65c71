-- ===== src/Booking/Laws.antt =====
-- The counter of a slot is the number of bookings that hold a place in it, and never more than the
-- shop's capacity.
use roadassistapp_be.Base.{
  ℕ, ◌+◌, ◌≤◌, ◌≡◌, refl, ap, subst, inl, inr, Bool, true, false, ◌&&◌, Option, none, some, List,
  arith, leb, ◌==◌, if◌then◌else◌, Bool-cases, All,
}
use roadassistapp_be.Base.Result.{conflict, ok, err}
use roadassistapp_be.Base.Store.{
  All-update_row, IsKeyed, update_row-IsKeyed, total, total-update_row, total_ge,
}
use roadassistapp_be.Slots.{booking_settings, date_key_of, minutes_of_day}
use roadassistapp_be.Booking.{
  BookingStatus, Booking, booking_id, BookingShop, BookingWorld, find_booking, find_shop, set_count,
  claim_slot, release_slot, write_booking, confirmed_booking, arrived_booking, completed_booking,
}

-- Whether a booking of this status has claimed its slot, and has not given it back.
abbrev pub is_holding : BookingStatus → Bool
is_holding confirmed_booking = true
is_holding arrived_booking = true
is_holding completed_booking = true
is_holding _ = false

abbrev same_slot : ℕ → ℕ → ℕ → Booking → Bool
same_slot p d m b =
    b.provider_id == p && (date_key_of b.scheduled_at == d && minutes_of_day b.scheduled_at == m)

abbrev pub held : ℕ → ℕ → ℕ → Booking → ℕ
held p d m b = if is_holding b.status && same_slot p d m b then 1 else 0

-- How many bookings hold a place in a slot.
abbrev pub held_count : ℕ → ℕ → ℕ → List Booking → ℕ
held_count p d m rows = total booking_id (held p d m) rows

abbrev capacity_in : Option BookingShop → ℕ
capacity_in none = 0
capacity_in (some s) = (booking_settings s.fields).capacity

abbrev pub capacity_of : ℕ → BookingWorld → ℕ
capacity_of p w = capacity_in (find_shop p w)

abbrev pub AllCounted : BookingWorld → Type 0
AllCounted w =
    (p d m : ℕ) → (w.slots p d m ≡ held_count p d m w.bookings) × (w.slots p d m ≤ capacity_of p w)

-- The ids are distinct, the slot of each booking is that of its time, and every counter is right.
unfoldable pub IsCounted : BookingWorld → Type 0
IsCounted w =
    IsKeyed booking_id w.bookings
    × All (λ b. b.slot_key ≡ minutes_of_day b.scheduled_at) w.bookings
    × AllCounted w

-- A change of a booking that keeps what its slot is found by.
abbrev pub Keeps : (Booking → Booking) → Type 0
Keeps f =
    (b : Booking)
    → ((f b).id ≡ b.id)
      × ((f b).provider_id ≡ b.provider_id)
      × ((f b).scheduled_at ≡ b.scheduled_at)
      × ((f b).slot_key ≡ b.slot_key)

-- The rest of the state, after a booking is changed: its counter changes as the booking's holding
-- does, and the others stay.
pub write_booking-IsCounted :
    (id : ℕ) (f : Booking → Booking) (w v : BookingWorld) {b : Booking}
    → find_booking id w ≡ some b
    → Keeps f
    → v.bookings ≡ w.bookings
    → v.shops ≡ w.shops
    → IsCounted w
    → ((p d m : ℕ) → (v.slots p d m + held p d m b ≡ w.slots p d m + held p d m (f b)))
    → ((p d m : ℕ) → (v.slots p d m ≤ capacity_of p w))
    → IsCounted (write_booking id f v)
unfolding IsCounted write_booking
write_booking-IsCounted id f w v {b} found k sb ss h moved fits =
    rw (sb, ss)
      (
        update_row-IsKeyed booking_id id f w.bookings (λ q. (k q).0) h.0,
        All-update_row booking_id (λ q. q.slot_key ≡ minutes_of_day q.scheduled_at) id f w.bookings
            (λ q e. rw ((k q).3, (k q).2) e) h.1,
        λ p d m. (
          let sum = total-update_row booking_id (held p d m) id f w.bookings h.0 found in
              let old = (h.2 p d m).0 in let move = moved p d m in omega (arith, sum, old, move),
          fits p d m,
        ),
      )

keys : (a b c p d m : ℕ) → (a == p && (b == d && c == m)) ≡ true → (a ≡ p) × (b ≡ d) × (c ≡ m)
keys a b c p d m h = ground arith

same_slot_keys :
    (p d m : ℕ) (b : Booking)
    → same_slot p d m b ≡ true
    → (b.provider_id ≡ p) × (date_key_of b.scheduled_at ≡ d) × (minutes_of_day b.scheduled_at ≡ m)
same_slot_keys p d m b h =
    keys (b.provider_id) (date_key_of b.scheduled_at) (minutes_of_day b.scheduled_at) p d m h

-- The counters that a claim leaves: one more where the booking is, and still within the capacity.
pub claim_moved :
    (b c : Booking) (s : BookingShop) (w : BookingWorld) {counts : ℕ → ℕ → ℕ → ℕ}
    → find_shop b.provider_id w ≡ some s
    → claim_slot b.provider_id
        (date_key_of b.scheduled_at)
        (minutes_of_day b.scheduled_at)
        (booking_settings s.fields).capacity
        w.slots
      ≡ ok counts
    → AllCounted w
    → is_holding b.status ≡ false
    → is_holding c.status ≡ true
    → (p d m : ℕ) → same_slot p d m c ≡ same_slot p d m b
    → (counts p d m + held p d m b ≡ w.slots p d m + held p d m c)
      × (counts p d m ≤ capacity_of p w)
unfolding claim_slot
claim_moved b c s w {counts} g claimed h hb hc p d m same =
    let full = (booking_settings s.fields).capacity in
    let D = date_key_of b.scheduled_at in
    let M = minutes_of_day b.scheduled_at in
    let n = w.slots b.provider_id D M in
    elim (Bool-cases (leb full n)) [
      | inl e ↦
          let no : err (conflict "That time was just taken") ≡ ok counts =
            rw (e, claim_slot) at claimed in
          cc no
      | inr room ↦
          let eq : ok (set_count b.provider_id D M (n + 1) w.slots) ≡ ok counts =
            rw (room, claim_slot) at claimed in
          let same_counts : set_count b.provider_id D M (n + 1) w.slots ≡ counts = cc eq in
          let at_slot : set_count b.provider_id D M (n + 1) w.slots p d m ≡ counts p d m =
            ap (λ (f : ℕ → ℕ → ℕ → ℕ). f p d m) same_counts in
          elim (Bool-cases (same_slot p d m b)) [
            | inr e ↦
                let kept : w.slots p d m ≡ counts p d m = rw e at at_slot in
                let old = (h p d m).1 in rw (same, e, hb, hc, ← kept) (refl, old)
            | inl e ↦
                let more : n + 1 ≡ counts p d m = rw e at at_slot in
                let key = same_slot_keys p d m b e in
                let here : n ≡ w.slots p d m = cc (key.0, key.1, key.2) in
                let shop : find_shop p w ≡ some s = subst (λ x. find_shop x w ≡ some s) key.0 g in
                let few : n + 1 ≤ full = ground arith in
                rw (hb, hc, same, e, shop) (omega arith, omega arith)
          ]
    ]

-- The counters that a release leaves, for a booking that holds a place.
pub release_moved :
    (b c : Booking) (w : BookingWorld)
    → find_booking b.id w ≡ some b
    → AllCounted w
    → is_holding b.status ≡ true
    → is_holding c.status ≡ false
    → (p d m : ℕ)
    → (release_slot b.provider_id
            (date_key_of b.scheduled_at)
            (minutes_of_day b.scheduled_at)
            w.slots
            p
            d
            m
          + held p d m b
        ≡ w.slots p d m + held p d m c)
      × (release_slot b.provider_id
            (date_key_of b.scheduled_at)
            (minutes_of_day b.scheduled_at)
            w.slots
            p
            d
            m
          ≤ capacity_of p w)
unfolding release_slot
release_moved b c w found h hb hc p d m =
    let old = h p d m in
    let D = date_key_of b.scheduled_at in
    let M = minutes_of_day b.scheduled_at in
    elim (Bool-cases (same_slot p d m b)) [
      | inr e ↦ rw (e, hb, hc, release_slot) (refl, old.1)
      | inl e ↦
          let key = same_slot_keys p d m b e in
          let here : w.slots b.provider_id D M ≡ w.slots p d m = cc (key.0, key.1, key.2) in
          let ge : held p d m b ≤ held_count p d m w.bookings =
            total_ge booking_id (held p d m) b.id w.bookings found in
          let one : held p d m b ≡ 1 = rw (hb, e) refl in
          rw (e, hb, hc, release_slot) (omega (arith, old, ge, one, here), omega (arith, old, here))
    ]

-- A change that neither takes a place nor gives one back.
pub kept-IsCounted :
    (id : ℕ) (f : Booking → Booking) (w v : BookingWorld) {b : Booking}
    → find_booking id w ≡ some b
    → Keeps f
    → v.bookings ≡ w.bookings
    → v.shops ≡ w.shops
    → v.slots ≡ w.slots
    → is_holding (f b).status ≡ is_holding b.status
    → IsCounted w
    → IsCounted (write_booking id f v)
unfolding IsCounted
kept-IsCounted id f w v {b} found k sb ss sl hold h =
    write_booking-IsCounted id f w v found k sb ss h (λ p d m. rw (sl, (k b).1, (k b).2, hold) refl)
      (λ p d m. rw sl (h.2 p d m).1)
