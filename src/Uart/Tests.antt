-- ===== src/Uart/Tests.antt =====
-- The theorem on a third board whose line is ready at every second read.
use hob_os.Base.{
  ◌+◌, ◌%◌, ◌≡◌, refl, [], ◌∷◌, true, false, inl, inr, ◌==◌, if◌then◌else◌, arith, Bool-cases,
  ne→==, ==→eq,
}
use hob_os.Base.Run.{ok, ◌>>◌, Ends}
use hob_os.Uart.{Uart, GpioController, unset, setup_console, puts}
use hob_os.Uart.Sent.{Sent, IsPatient, line_of}
use hob_os.Uart.Console.{device_at, setup_console-puts}

abbrev board : Uart
board = record {
  register = λ n a. if n % 2 == 0 then 0 else 64;
  reads = 0;
  written = [];
  rpi_version = 3;
  mmio_base = 0x3f000000;
  uart_dev = record { base = 0; driver = unset; quirks = false };
  console = false;
}

abbrev on_stack : GpioController
on_stack = record { base = 7; functions = false }

-- A word that has the bit, taken to 8 bits, is ready.
board-IsPatient : IsPatient (line_of true (device_at true 0x3f000000)) board.register 2
board-IsPatient n = elim (Bool-cases (n % 2 == 0)) [
  | inl e ↦
      let odd : ((n + 1) % 2 == 0) ≡ false =
        ne→== ((n + 1) % 2) 0 (let z = ==→eq (n % 2) 0 e in omega (arith, z)) in
      (1, omega arith, rw odd refl)
  | inr e ↦ let same : n + 0 ≡ n = omega arith in (0, omega arith, rw (same, e) refl)
]

setup_console-puts_example :
    Ends
      (λ _ t.
        (u : Uart) × (setup_console on_stack board ≡ ok tt u)
        × Sent
            (line_of true (device_at true 0x3f000000))
            board.register
            (72 ∷ 105 ∷ [])
            u.written
            t.written)
      ((do setup_console on_stack; puts 9 (72 ∷ 105 ∷ [])) board)
setup_console-puts_example =
    setup_console-puts true on_stack (72 ∷ 105 ∷ []) 9 2 board refl
      (omega arith, omega arith, (omega arith, omega arith, tt)) (omega arith) board-IsPatient
