-- ===== src/Printd/Tests/Responses.antt =====
-- Responses of a printer.
use my_file.Prelude.{
  ℕ, false, none, ◌+◌, ◌<◌, ◌≡◌, refl, true, some, List, [], ◌∷◌, ◌++◌, arith, replicate, pos,
}
use my_file.CLib.Files.{write_at}
use my_file.CLib.Numbers.{is_space, is_digit, atol_digits}
use my_file.Printd.Heap.{ok, out_of_fuel}
use my_file.Printd.Chunks.{wrote_all}
use my_file.Printd.Printer.{PrinterCalls, Daemon, connected, printer_round, check_config}
use my_file.Printd.Printer.Round.{Rounds, printer_round-Ended}
use my_file.Printd.Tests.{job7, job8, two_jobs-IsQueue, hp, server}
use my_file.Printd.Status.{ends_at, byte_at, Reply, got, end_loop, printer_status}
use my_file.Printd.Status.HeaderEnd.{end_loop-first_end}

abbrev memory : List ℕ
memory = replicate 80 0

-- the header of a response of success, in front of its empty line
abbrev header : List ℕ
header =
    b'H' ∷ b'T' ∷ b'T' ∷ b'P' ∷ b'/' ∷ b'1' ∷ b'.' ∷ b'1' ∷ b' ' ∷ b'2' ∷ b'0' ∷ b'0' ∷ b' ' ∷ b'O'
    ∷ b'K' ∷ 13 ∷ 10 ∷ b'C' ∷ b'o' ∷ b'n' ∷ b't' ∷ b'e' ∷ b'n' ∷ b't' ∷ b'-' ∷ b'L' ∷ b'e' ∷ b'n'
    ∷ b'g' ∷ b't' ∷ b'h' ∷ b':' ∷ b' ' ∷ b'8' ∷ 13 ∷ 10 ∷ []

abbrev empty_line : List ℕ
empty_line = 13 ∷ 10 ∷ []

abbrev ipp_part : List ℕ
ipp_part = 1 ∷ 1 ∷ 0 ∷ 0 ∷ 0 ∷ 0 ∷ 0 ∷ 7 ∷ []

whole_response :
    printer_status [] 3 memory (got (header ++ (empty_line ++ ipp_part)) ∷ []) (pos 7) ≡ ok true
unfolding printer_status write_at is_space is_digit atol_digits
whole_response = refl

-- The empty line comes in a second read, which is never made.
split_response :
    printer_status [] 9 memory (got header ∷ (got (empty_line ++ ipp_part) ∷ [])) (pos 7)
    ≡ out_of_fuel
unfolding printer_status write_at is_space is_digit atol_digits
split_response = refl

-- a response from its last header line on, with more behind the empty line
abbrev reply : Reply
reply = record { buf = b'8' ∷ 10 ∷ 13 ∷ 10 ∷ 1 ∷ 1 ∷ []; nr = 6; reads = [] }

more_behind : 1 + 3 < reply.nr
more_behind = omega arith

end_loop-first_end_example : end_loop [] 2 reply 0 ≡ ok (some (reply, 4))
unfolding ends_at byte_at
end_loop-first_end_example = end_loop-first_end [] reply 1 0 (omega arith) more_behind

abbrev daemon : Daemon
daemon = record { server = server; printer_name = hp; reread = false; counter = [] }

abbrev printer_calls : PrinterCalls
printer_calls = record {
  counter_written = true;
  address = none;
  delivery = connected (record {
    st_size = 4;
    headers_sent = true;
    reads = (b'%' ∷ b'!' ∷ b'P' ∷ b'S' ∷ [], wrote_all) ∷ [];
    read_fails = false;
    fresh = [];
    buffer = memory;
    replies = got (header ++ (empty_line ++ ipp_part)) ∷ [];
  });
}

keeps_name : check_config printer_calls false hp ≡ ok hp
unfolding check_config
keeps_name = refl

printer_round-Ended_example :
    Rounds 3 (printer_round 3 printer_calls daemon) daemon printer_calls hp 1 job7 ((2, job8) ∷ [])
printer_round-Ended_example =
    printer_round-Ended 3 printer_calls daemon 1 job7 ((2, job8) ∷ []) hp two_jobs-IsQueue refl
      keeps_name (record { printer = omega arith; header = omega arith }) (omega arith)
      (true, whole_response)
