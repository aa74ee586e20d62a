-- ===== src/Boot/Reached.antt =====
-- The way of `_start` to its last loop.
use yerp.Arch.Serial.{init_serial}
use yerp.Boot.{Machine, Texts, start_kernel}
use yerp.Boot.Send.{IsResponsive, data_bytes, print_to-written}
use yerp.Format.Printf.Fields.{crlf}
use yerp.Memory.{Memory, done}
use yerp.Memory.Text.{IsCStr}
use yerp.Pmm.Init.{MemmapResponse}
use yerp.Prelude.{List, false, length, none, refl, some, ℕ, ◌++◌, ◌<◌, ◌≡◌}

-- When the transmitters of both ports are ready again and again, each at one of as many reads as
-- there is fuel, and the banner and the warning are shorter than the fuel, `_start` reaches its
-- last loop with the interrupts off. COM2 has then been given the bytes of `init` and those of the
-- banner, and COM1 those of `init`, with the warning behind them exactly when the bootloader has
-- not answered the request for the memory map.
pub start_kernel-written :
    (f : ℕ) (m : Memory) (texts : Texts) (status1 status2 : ℕ → ℕ) (r : MemmapResponse)
    (machine : Machine) (banner_text warning_text : List ℕ)
    → IsCStr m texts.banner banner_text
    → IsCStr m texts.warning warning_text
    → length banner_text < f
    → length warning_text < f
    → IsResponsive f status1
    → IsResponsive f status2
    → ((end : Machine) × (start_kernel f m texts status1 status2 (some r) machine ≡ done end)
        × (end.interrupts ≡ false)
        × (end.com1.written ≡ (init_serial 115200 3 machine.com1).written)
        × (end.com2.written
            ≡ (init_serial 115200 3 machine.com2).written ++ data_bytes (crlf banner_text)))
      × ((end : Machine) × (start_kernel f m texts status1 status2 none machine ≡ done end)
          × (end.interrupts ≡ false)
          × (end.com1.written
              ≡ (init_serial 115200 3 machine.com1).written ++ data_bytes (crlf warning_text))
          × (end.com2.written
              ≡ (init_serial 115200 3 machine.com2).written ++ data_bytes (crlf banner_text)))
unfolding start_kernel
start_kernel-written f m texts status1 status2 r machine xs ys hx hy fx fy ready1 ready2 =
    let line1 = init_serial 115200 3 machine.com1 in
    let (a, banner_run, banner_printf, banner_bytes) =
      print_to-written f m status2 (init_serial 115200 3 machine.com2) texts.banner xs hx fx
        ready2 in
    let (b, warning_print, warning_run, warning_bytes) =
      print_to-written f m status1 line1 texts.warning ys hy fy ready1 in
    (
      (
        record { com1 = line1; com2 = a; interrupts = false },
        rw banner_run,
        refl,
        refl,
        banner_bytes,
      ),
      (
        record { com1 = b; com2 = a; interrupts = false },
        rw (banner_run, warning_run),
        refl,
        warning_bytes,
        banner_bytes,
      ),
    )
