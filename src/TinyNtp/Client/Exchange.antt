-- ===== src/TinyNtp/Client/Exchange.antt =====
-- A whole exchange: the client's request, the server's reply, and what the client makes of it.
use pico_gnss.Base.{ℕ, ◌+◌, ◌-◌, ◌*◌, ◌^◌, ◌≤◌, ◌<◌, ◌≡◌, ◌≢◌, refl, ap, ◌∙◌, arith}
use pico_gnss.Base.Int.{
  ℤ, pos, ◌+ℤ◌, ◌-ℤ◌, ◌/ℤ◌, IsI64, saturate_i64, saturate_i64-eq, abs_ℕ, int_laws,
}
use pico_gnss.TinyNtp.Timestamp.{zero_timestamp, from_unix_ns, to_unix_ns_near, nanos_per_sec}
use pico_gnss.TinyNtp.Timestamp.Era.{near-from_unix_ns}
use pico_gnss.TinyNtp.Packet.{NtpPacket}
use pico_gnss.TinyNtp.Server.{ServerConfig, ClockState, serve, respond, broadcast}
use pico_gnss.TinyNtp.Server.Policy.{IsRequest}
use pico_gnss.TinyNtp.Server.Answers.{respond-eq-serve, broadcast-eq-serve, served-IsAnnouncement}
use pico_gnss.TinyNtp.Client.{Measurement, ok, request, measure, accept_broadcast}
use pico_gnss.TinyNtp.Client.Sanity.{
  IsReply, IsBroadcast, on_wire, measured, measure-eq-ok, heard, accept_broadcast-eq-ok,
}
use pico_gnss.Base.{inl, inr}

-- An instant that a timestamp resolves: an `i64` within 68 years of the reference.
abbrev pub IsNear : ℤ → ℤ → Type 0
IsNear t reference = IsI64 t × (abs_ℕ (t -ℤ reference) ≤ (2 ^ 31 - 1) * nanos_per_sec)

pub request-IsRequest : (t poll : ℤ) → IsRequest (request t poll)
unfolding request
request-IsRequest t poll = (refl, omega arith, omega arith)

module _ (cfg : ServerConfig) (state : ClockState) (poll t1 t2 t3 t4 : ℤ) (p : NtpPacket)
    (served : respond cfg state (request t1 poll) t2 t3 ≡ serve p)
    (sent : from_unix_ns t3 ≢ zero_timestamp) where
  served-IsReply : IsReply (request t1 poll) p
  unfolding request
  served-IsReply =
      let (_, (t, d, q)) = (respond-eq-serve cfg state (request t1 poll) t2 t3 p).0 served in
      let (lo, hi, leap, _) =
        served-IsAnnouncement cfg state p (inr (request t1 poll, t2, t3, served)) in
      (rw q refl, rw q refl, rw q refl, λ e. sent (rw q at e), (leap, lo, omega (arith, hi)))

  -- The three wire timestamps are read back as the instants that they were made from.
  reply_instants :
      IsNear t1 t4
      → IsNear t2 t4
      → IsNear t3 t4
      → measured (request t1 poll) p t4 ≡ on_wire t1 t2 t3 t4 p
  unfolding request
  reply_instants n1 n2 n3 =
      let (_, (t, d, q)) = (respond-eq-serve cfg state (request t1 poll) t2 t3 p).0 served in
      rw q (
        rw
          (
            near-from_unix_ns t1 t4 n1.1 n1.0,
            near-from_unix_ns t2 t4 n2.1 n2.0,
            near-from_unix_ns t3 t4 n3.1 n3.0,
          )
          refl)

  -- The client accepts the reply to its request, and computes from the four true instants.
  pub measure-respond :
      IsNear t1 t4
      → IsNear t2 t4
      → IsNear t3 t4
      → measure (request t1 poll) p t4 ≡ ok (on_wire t1 t2 t3 t4 p)
  measure-respond n1 n2 n3 =
      (measure-eq-ok (request t1 poll) p t4 _).1 (served-IsReply, refl)
      ∙ ap ok (reply_instants n1 n2 n3)

-- The arithmetic of an exchange over a path of `out` and `back` nanoseconds, with a server that
-- leads by `lead` and takes `work`: the delay is the path alone, and twice the offset misses twice
-- the lead by the asymmetry of the path and a rounding of one.
module _ (t1 lead : ℤ) (out work back : ℕ) where
  abbrev pub arrival : ℤ
  arrival = t1 +ℤ pos out +ℤ lead

  abbrev pub departure : ℤ
  departure = arrival +ℤ pos work

  abbrev pub destination : ℤ
  destination = t1 +ℤ pos out +ℤ pos work +ℤ pos back

  delay_is_path : (destination -ℤ t1) -ℤ (departure -ℤ arrival) ≡ pos (out + back)
  delay_is_path = omega int_laws

  offset_is_lead :
      (arrival -ℤ t1) +ℤ (departure -ℤ destination) ≡ lead +ℤ lead +ℤ (pos out -ℤ pos back)
  offset_is_lead = omega int_laws

  pub on_wire-eq :
      (p : NtpPacket)
      → IsI64 ((lead +ℤ lead +ℤ (pos out -ℤ pos back)) /ℤ 2)
      → out + back < 2 ^ 63
      → ((on_wire t1 arrival departure destination p).delay_ns ≡ pos (out + back))
        × ((on_wire t1 arrival departure destination p).offset_ns
            ≡ (lead +ℤ lead +ℤ (pos out -ℤ pos back)) /ℤ 2)
  on_wire-eq p fits short = (
    ap saturate_i64 delay_is_path ∙ saturate_i64-eq (pos (out + back)) (omega arith),
    ap (λ z. saturate_i64 (z /ℤ 2)) offset_is_lead ∙ saturate_i64-eq _ fits,
  )

halve : (a : ℤ) → (a +ℤ a +ℤ (pos 0 -ℤ pos 0)) /ℤ 2 ≡ a
unfolding ◌/ℤ◌ ◌+ℤ◌ ◌-ℤ◌
halve a = ground arith

same_way : (n : ℕ) → pos n -ℤ pos n ≡ pos 0 -ℤ pos 0
same_way n = omega int_laws

module _ (cfg : ServerConfig) (state : ClockState) (poll t1 lead : ℤ) (out work back : ℕ)
    (p : NtpPacket)
    (served : respond cfg state
        (request t1 poll)
        (arrival t1 lead out work back)
        (departure t1 lead out work back)
      ≡ serve p)
    (sent : from_unix_ns (departure t1 lead out work back) ≢ zero_timestamp)
    (sent_near : IsNear t1 (destination t1 lead out work back))
    (arrived_near : IsNear (arrival t1 lead out work back) (destination t1 lead out work back))
    (left_near : IsNear (departure t1 lead out work back) (destination t1 lead out work back))
    (short : out + back < 2 ^ 63) where
  -- For a request that the server answers, over a path of `out` and `back` nanoseconds and with
  -- the server's clock ahead by `lead`, where the instants are `i64` values within 68 years of
  -- the destination and the reply's transmit timestamp is not the all-zero one, `measure` accepts
  -- the reply; its delay is `out + back` whatever time the server took, and its offset is half of
  -- `2 * lead + out - back`, rounded toward zero.
  pub measure_exchange :
      IsI64 ((lead +ℤ lead +ℤ (pos out -ℤ pos back)) /ℤ 2)
      → (m : Measurement) × (measure (request t1 poll) p (destination t1 lead out work back) ≡ ok m)
        × (m.delay_ns ≡ pos (out + back))
        × (m.offset_ns ≡ (lead +ℤ lead +ℤ (pos out -ℤ pos back)) /ℤ 2)
  measure_exchange fits =
      let (delay, offset) = on_wire-eq t1 lead out work back p fits short in
      (
        on_wire t1 (arrival t1 lead out work back) (departure t1 lead out work back)
            (destination t1 lead out work back) p,
        measure-respond cfg state poll t1 _ _ _ p served sent sent_near arrived_near left_near,
        delay,
        offset,
      )

  -- On a symmetric path the offset is the lead itself.
  pub measure_symmetric_exchange :
      out ≡ back
      → IsI64 lead
      → (m : Measurement) × (measure (request t1 poll) p (destination t1 lead out work back) ≡ ok m)
        × (m.delay_ns ≡ pos (out + back))
        × (m.offset_ns ≡ lead)
  measure_symmetric_exchange same fits =
      let whole : (lead +ℤ lead +ℤ (pos out -ℤ pos back)) /ℤ 2 ≡ lead =
        rw (same, same_way back) (halve lead) in
      let (m, e, delay, offset) = measure_exchange (rw whole fits) in (m, e, delay, offset ∙ whole)

-- A broadcast gives the lead too, to a client that knows the delay of a symmetric path.
module _ (cfg : ServerConfig) (state : ClockState) (t4 lead : ℤ) (one_way : ℕ) (p : NtpPacket)
    (served : broadcast cfg state (t4 -ℤ pos one_way +ℤ lead) ≡ serve p)
    (sent : from_unix_ns (t4 -ℤ pos one_way +ℤ lead) ≢ zero_timestamp)
    (sent_near : IsNear (t4 -ℤ pos one_way +ℤ lead) t4) where
  announced-IsBroadcast : IsBroadcast p
  announced-IsBroadcast =
      let (t, d, q) = (broadcast-eq-serve cfg state _ p).0 served in
      let (lo, hi, leap, _) = served-IsAnnouncement cfg state p (inl (_, served)) in
      (rw q refl, λ e. sent (rw q at e), (leap, lo, omega (arith, hi)))

  departure_read : to_unix_ns_near p.transmit_timestamp t4 ≡ t4 -ℤ pos one_way +ℤ lead
  departure_read =
      let (t, d, q) = (broadcast-eq-serve cfg state _ p).0 served in
      rw q (near-from_unix_ns (t4 -ℤ pos one_way +ℤ lead) t4 sent_near.1 sent_near.0)

  half_delay : pos (2 * one_way) /ℤ 2 ≡ pos one_way
  unfolding ◌/ℤ◌
  half_delay = ground arith

  -- For a broadcast sent `one_way` nanoseconds before its arrival by a server ahead by `lead`,
  -- where the departure is an `i64` instant within 68 years of the arrival and its timestamp is
  -- not the all-zero one, `accept_broadcast` with the delay `2 * one_way` accepts it and measures
  -- the offset `lead`.
  pub accept_broadcast_exchange :
      IsI64 lead
      → (m : Measurement) × (accept_broadcast p t4 (pos (2 * one_way)) ≡ ok m)
        × (m.offset_ns ≡ lead)
        × (m.delay_ns ≡ pos (2 * one_way))
  accept_broadcast_exchange fits = (
    heard p t4 (pos (2 * one_way)),
    (accept_broadcast-eq-ok p t4 (pos (2 * one_way)) _).1 (announced-IsBroadcast, refl),
    rw (departure_read, half_delay) (ap saturate_i64 whole ∙ saturate_i64-eq lead fits),
    refl,
  )
    where
      whole : (t4 -ℤ pos one_way +ℤ lead -ℤ t4) +ℤ pos one_way ≡ lead
      whole = omega int_laws
