-- ===== src/Examples/Data.antt =====
-- A hotel with two rooms of one type, its manager, and a guest who books.
use hospitality_os.Common.{List, [], false, none, some, str_eq, true, ◌*◌, ◌+◌, ◌/◌, ◌∷◌}
use hospitality_os.Common.Int.{pos, round_div, ◌*ℤ◌, ◌+ℤ◌}
use hospitality_os.Enums.{
  ActorType, HotelStatus, PaymentMethod, PaymentType, ReservationSource, ReservationStatus, Role,
  RoomStatus,
}
use hospitality_os.Payments.{PaymentDto}
use hospitality_os.Reservations.Create.{CreateDto, new_reservation}
use hospitality_os.Service.Calls.{Call}
use hospitality_os.Store.{Actor, Db, External, Folio, Hotel, Reservation, Room, RoomType, empty_db}

abbrev pub ext : External
ext = record {
  round_percent = λ price v. price +ℤ v;
  convert = λ amount from to rate. amount;
  live_rate = λ from to. 1500;
  encrypt = λ s. s;
  decrypt = λ s. s;
  upper = λ s. s;
  percent_of = λ part whole. part * 100 / whole;
  paid_at = λ i. 90000000;
  heard_at = λ i. 90000000;
  points_for = λ a c. round_div a 100000;
  digits = λ a. "0";
  issued_at = λ i. 90000000;
  inclusive_tax = λ net bps. round_div (net *ℤ pos bps) (10000 + bps);
  round_share = λ a share. round_div (a *ℤ pos share) 1000;
  mentions = λ text word. str_eq text word;
  add_months = λ d n. d + n * 2592000000;
}

abbrev pub manager : Actor
manager = record { id = some 9; type = ActorType.user; role = some Role.manager; hotel_id = 1 }

abbrev pub hotel : Hotel
hotel = record {
  id = 1;
  currency = "NGN";
  business_date = none;
  plan_id = none;
  status = HotelStatus.active;
  approved = true;
  approval_requested = false;
  approved_at = some 0;
  trial_ends_at = none;
  suspended_at = none;
  suspend_reason = none;
  current_period_end = none;
}

abbrev pub double : RoomType
double = record { id = 2; hotel_id = 1; base_price = pos 20000 }

abbrev pub room_a : Room
room_a = record {
  id = 3;
  hotel_id = 1;
  room_type_id = 2;
  status = RoomStatus.available;
  last_cleaned_at = none;
  deleted_at = none;
}

abbrev pub room_b : Room
room_b = record room_a { id = 4 }

abbrev pub start_db : Db
start_db = record empty_db {
  hotels = hotel ∷ [];
  rooms = room_a ∷ room_b ∷ [];
  room_types = double ∷ [];
  next_id = 100;
}

-- two nights from the second day
abbrev pub stay : CreateDto
stay = record {
  guest = record {
    name = "Ada";
    phone = "0800";
    email = none;
    whatsapp_id = none;
    id_type = none;
    id_number = none;
    vip = none;
    notes = none;
  };
  room_type_id = 2;
  rate_plan_id = none;
  room_id = none;
  check_in = 172800000;
  check_out = 345600000;
  adults = 2;
  children = 0;
  source = ReservationSource.walk_in;
  special_requests = none;
  idempotency_key = none;
}

-- a reservation of the stay in the first room
abbrev pub in_room_a : ReservationStatus → Reservation
in_room_a status = new_reservation 50 40 3 manager stay status (pos 40000) "NGN" none

abbrev pub folio_a : Folio
folio_a = record {
  id = 51;
  reservation_id = 50;
  currency = "NGN";
  total_charges = pos 40000;
  total_paid = pos 0;
  balance = pos 40000;
}

-- the database with that reservation
abbrev pub with_stay : ReservationStatus → Db
with_stay status = record start_db { reservations = in_room_a status ∷ []; folios = folio_a ∷ [] }

abbrev pub payment : PaymentDto
payment = record {
  amount = pos 15000;
  method = PaymentMethod.cash;
  type = PaymentType.deposit;
  currency = none;
  fx_rate = none;
  reference = none;
  idempotency_key = none;
}

-- two bookings, a payment, a cancellation and a booking again
abbrev pub calls : List Call
calls =
    Call.create_reservation 0 15 manager stay ReservationStatus.confirmed
    ∷ Call.create_reservation 0 15 manager stay ReservationStatus.held
    ∷ Call.create_reservation 0 15 manager stay ReservationStatus.confirmed
    ∷ Call.take_payment manager 101 payment
    ∷ Call.cancel_reservation manager 101 "plans"
    ∷ Call.create_reservation 0 15 manager stay ReservationStatus.confirmed
    ∷ []
