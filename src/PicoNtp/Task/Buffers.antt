-- ===== src/PicoNtp/Task/Buffers.antt =====
-- The buffers of the task have room for every packet that the server makes.
use pico_gnss.Base.{
  ℕ, ◌≡◌, refl, sym, ap, ap₂, ◌∙◌, arith, List, [], ◌∷◌, ◌++◌, some, length, length-append,
  length-map, take, drop, take-append_self, get_or,
}
use mathlib.Core.List.{append-nil}
use pico_gnss.Pico10baseT.Frame.{UdpFrameSpec, frame_len, build_udp_frame}
use pico_gnss.Pico10baseT.Frame.Layout.{sent_frame, length-sent_frame}
use pico_gnss.Pico10baseT.Frame.Receiver.{build_udp_frame-eq-some}
use pico_gnss.Pico10baseT.Phy.{tp_idl_word, manchester_table, encoded_words, encode_frame}
use pico_gnss.Pico10baseT.Phy.Line.{line, table_words, encode_frame-eq-some}
use pico_gnss.Base.Int.{ℤ}
use pico_gnss.TinyNtp.Packet.{NtpPacket, encode}
use pico_gnss.TinyNtp.Packet.RoundTrip.{length-encode}
use pico_gnss.PicoNtp.Config.{udp_spec, frame_size, symbol_words}
use pico_gnss.PicoNtp.Task.{NtpTask, Round, hand_over, build_symbols, build_frame}

-- The two buffers have the lengths of their types.
pub record HasBuffers (s : NtpTask) : Type 0 where
  pub frame_fits : length s.frame ≡ frame_size
  pub symbols_fit : length s.symbols ≡ symbol_words

drop_whole : (xs ys : List ℕ) (n : ℕ) → length ys ≡ n → xs ++ drop n ys ≡ xs
drop_whole xs ys n e =
    ap (λ (l : List ℕ). xs ++ l) (ap (λ (k : ℕ). drop k ys) (sym e) ∙ drop-all ys) ∙ append-nil xs
  where
    drop-all : (l : List ℕ) → drop (length l) l ≡ []
    drop-all [] = refl
    drop-all (x ∷ l) = drop-all l

length-line : (frame : List ℕ) → length (line frame) ≡ encoded_words (length frame)
unfolding encoded_words
length-line frame = omega (
  arith,
  length-append (table_words frame) (tp_idl_word ∷ []),
  length-map frame (λ b. get_or manchester_table b 0),
)

module _ (port ip_id : ℕ) (p : NtpPacket) where
  abbrev pub ntp_spec : UdpFrameSpec
  ntp_spec = udp_spec port ip_id (encode p)

  pub length-frame : length (sent_frame ntp_spec) ≡ frame_size
  length-frame =
      (length-sent_frame ntp_spec).0 ∙ unfold frame_size in ap frame_len (length-encode p)

  frame_built :
      (out : List ℕ)
      → length out ≡ frame_size
      → build_udp_frame ntp_spec out ≡ some (frame_size, sent_frame ntp_spec)
  frame_built out e =
      let size : frame_len (length (encode p)) ≡ frame_size =
        unfold frame_size in ap frame_len (length-encode p) in
      build_udp_frame-eq-some ntp_spec out (omega (arith, size, e)) (omega (arith, length-encode p))
      ∙ ap some (
          ap₂ (λ n frame. (n, frame)) size
            (drop_whole (sent_frame ntp_spec) out (frame_len (length (encode p))) (e ∙ sym size)))

  symbols_built :
      (out : List ℕ)
      → length out ≡ symbol_words
      → encode_frame (take frame_size (sent_frame ntp_spec)) out
        ≡ some (symbol_words, line (sent_frame ntp_spec))
  symbols_built out e =
      let frame = sent_frame ntp_spec in
      let words : encoded_words (length frame) ≡ symbol_words =
        unfold symbol_words in ap encoded_words length-frame in
      ap (λ l. encode_frame l out)
        (ap (λ (k : ℕ). take k frame) (sym length-frame)
          ∙ ap (λ l. take (length frame) l) (sym (append-nil frame))
          ∙ take-append_self frame [])
      ∙ encode_frame-eq-some frame out (omega (arith, words, e))
      ∙ ap some (
          ap₂ (λ n coded. (n, coded)) words
            (drop_whole (line frame) out (encoded_words (length frame)) (e ∙ sym words)))

  pub length-symbols : length (line (sent_frame ntp_spec)) ≡ symbol_words
  unfolding symbol_words
  length-symbols = length-line (sent_frame ntp_spec) ∙ ap encoded_words length-frame

  -- What `tx.send` is given.
  pub line_words : take symbol_words (line (sent_frame ntp_spec)) ≡ line (sent_frame ntp_spec)
  line_words =
      let coded = line (sent_frame ntp_spec) in
      ap (λ (k : ℕ). take k coded) (sym length-symbols)
      ∙ ap (λ l. take (length coded) l) (sym (append-nil coded))
      ∙ take-append_self coded []

module _ (s : NtpTask) (r : Round) (target : ℤ) where
  after_frame :
      (port len : ℕ) (payload frame : List ℕ)
      → build_udp_frame (udp_spec port s.ip_id payload) s.frame ≡ some (len, frame)
      → build_frame port s r target payload
        ≡ build_symbols (record s { frame = frame }) r target len
  unfolding build_frame
  after_frame port len payload frame e = rw (build_frame, e) refl

  after_symbols :
      (len words : ℕ) (symbols : List ℕ)
      → encode_frame (take len s.frame) s.symbols ≡ some (words, symbols)
      → build_symbols s r target len ≡ hand_over (record s { symbols = symbols }) r target words
  unfolding build_symbols
  after_symbols len words symbols e = rw (build_symbols, e) refl

-- What the packet becomes: the frame fills its buffer, and the symbols theirs.
pub build_frame-eq :
    (port : ℕ) (s : NtpTask) (r : Round) (target : ℤ) (p : NtpPacket)
    → HasBuffers s
    → let frame = sent_frame (ntp_spec port s.ip_id p) in
      build_frame port s r target (encode p)
      ≡ hand_over (record s { frame = frame; symbols = line frame }) r target symbol_words
build_frame-eq port s r target p h =
    let frame = sent_frame (ntp_spec port s.ip_id p) in
    after_frame s r target port frame_size (encode p) frame
      (frame_built port s.ip_id p s.frame h.frame_fits)
    ∙ after_symbols (record s { frame = frame }) r target frame_size symbol_words (line frame)
        (symbols_built port s.ip_id p s.symbols h.symbols_fit)
