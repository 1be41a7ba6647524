-- ===== src/PicoGnss/Mt3333/Follow.antt =====
-- The port stands at the rate that is reported.
use pico_gnss.Base.{◌≡◌, arith, List}
use pico_gnss.PicoNtp.Link.{Uart, UartRead, send_pmtk, raise_baud, probe_gnss_baud}
use pico_gnss.PicoNtp.Link.Rates.{IsProbed, probe_gnss_baud-IsProbed}
use pico_gnss.PicoGnss.Mt3333.{probe_baud, or_default, establish_link}

module _ (hears : Uart → List UartRead) where
  or_default-baud :
      (port : Uart)
      → IsProbed hears port
      → (or_default (probe_baud hears port)).0.baud ≡ (or_default (probe_baud hears port)).1
  unfolding or_default probe_baud probe_gnss_baud
  or_default-baud port h = ground arith

  -- Whatever the port delivers, `establish_link` of pico-gnss leaves it at the rate that it
  -- returns.
  pub establish_link-baud :
      (uart : Uart) → (establish_link hears uart).0.baud ≡ (establish_link hears uart).1
  unfolding establish_link or_default probe_baud probe_gnss_baud
  establish_link-baud uart = ground (
    arith,
    probe_gnss_baud-IsProbed hears uart,
    or_default-baud (send_pmtk 96 (probe_baud hears uart).0 raise_baud)
        (probe_gnss_baud-IsProbed hears (send_pmtk 96 (probe_baud hears uart).0 raise_baud)),
  )
