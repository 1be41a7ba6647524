-- ===== src/PicoNtp/Link/Rates.antt =====
-- The rate on which the link ends, and what was heard at it.
use pico_gnss.Base.{◌≡◌, ◌⊎◌, ◌↔◌, arith, true, none, some, List}
use pico_gnss.PicoNtp.Link.{
  Uart, UartRead, gnss_boot_baud, gnss_fast_baud, try_baud, probe_gnss_baud, settle,
  establish_gnss_link, source_trusted, send_pmtk, raise_baud,
}

module _ (hears : Uart → List UartRead) where
  -- Whether a probe of the port, as it is, finds the receiver at the fast rate.
  abbrev pub FindsFast : Uart → Type 0
  FindsFast port = (probe_gnss_baud hears port).1 ≡ some gnss_fast_baud

  -- A probe ends with the port at the rate that it reports, or at the fast one.
  abbrev pub IsProbed : Uart → Type 0
  IsProbed port =
      (((probe_gnss_baud hears port).1 ≡ some gnss_boot_baud)
        × ((probe_gnss_baud hears port).0.baud ≡ gnss_boot_baud))
      ⊎ ((((probe_gnss_baud hears port).1 ≡ some gnss_fast_baud)
            × ((probe_gnss_baud hears port).0.baud ≡ gnss_fast_baud))
          ⊎ (((probe_gnss_baud hears port).1 ≡ none)
              × ((probe_gnss_baud hears port).0.baud ≡ gnss_fast_baud)))

  pub probe_gnss_baud-IsProbed : (port : Uart) → IsProbed port
  unfolding probe_gnss_baud try_baud
  probe_gnss_baud-IsProbed port = ground arith

  module _ (uart : Uart) where
    -- `establish_gnss_link` leaves the port at the rate that it returns, unless the first probe
    -- hears nothing: then the port is at the fast rate.
    pub establish_gnss_link-baud :
        (establish_gnss_link hears uart).0.baud ≡ (elim (probe_gnss_baud hears uart).1 [
          | none ↦ gnss_fast_baud
          | some rate ↦ (establish_gnss_link hears uart).1
        ])
    unfolding establish_gnss_link settle
    establish_gnss_link-baud = ground (
      arith,
      probe_gnss_baud-IsProbed uart,
      probe_gnss_baud-IsProbed (send_pmtk 64 (probe_gnss_baud hears uart).0 raise_baud),
    )

    -- The source is trusted exactly when a probe of the port finds the receiver at the fast rate,
    -- or one finds it at 9600 baud and a second one, behind the command, at the fast rate.
    pub source_trusted_iff : (source_trusted hears uart ≡ true) ↔ (
        FindsFast uart
        ⊎ (((probe_gnss_baud hears uart).1 ≡ some gnss_boot_baud)
            × FindsFast (send_pmtk 64 (probe_gnss_baud hears uart).0 raise_baud)))
    unfolding source_trusted establish_gnss_link settle
    source_trusted_iff = (
      λ h. ground (
        arith,
        probe_gnss_baud-IsProbed uart,
        probe_gnss_baud-IsProbed (send_pmtk 64 (probe_gnss_baud hears uart).0 raise_baud),
      ),
      λ h. ground (
        arith,
        probe_gnss_baud-IsProbed uart,
        probe_gnss_baud-IsProbed (send_pmtk 64 (probe_gnss_baud hears uart).0 raise_baud),
      ),
    )
