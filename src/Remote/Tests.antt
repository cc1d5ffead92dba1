-- ===== src/Remote/Tests.antt =====
-- A device of one counter, read and written by the client.
use pypga.Base.{
  ℕ, ◌+◌, ◌%◌, ◌^◌, ◌≡◌, refl, true, false, List, [], ◌∷◌, ◌++◌, arith, take, replicate,
}
use pypga.Server.{Device, replied, serve, read_values, write_values}
use pypga.Client.{Arrival, ok, reads, writes, read_request, write_request}
use pypga.Remote.EndToEnd.{read_end_to_end, write_end_to_end}

-- A load counts, and gives the count.
abbrev counting : Device
counting = record {
  State = ℕ;
  load = λ a s. (s % 2 ^ 32, s + 1);
  store = λ a v s. v;
  ram = λ s a. 0;
}

abbrev pieces : ℕ → List Arrival
pieces n = replicate n (record { available = 3; late = false })

counting_read : read_values counting 4 2 5 ≡ (1 ∷ 3 ∷ [], 4)
unfolding read_values
counting_read = refl

read_end_to_end_example :
    (reply : List ℕ) × (serve counting 0 (read_request 4 2 ++ (7 ∷ [])) 5
      ≡ replied reply (7 ∷ []) (read_values counting 4 2 5).1)
    × (reads 4 2 (pieces 16) (reply ++ (9 ∷ [])) ≡ ok ((read_values counting 4 2 5).0, 9 ∷ []))
read_end_to_end_example =
    read_end_to_end counting (λ a s. omega arith) 0 4 2 5 (pieces 16) (7 ∷ []) (9 ∷ [])
      (omega arith) (omega arith) (ground arith) (omega arith)

write_end_to_end_example :
    (reply : List ℕ) × (serve counting 0 (write_request 4 (6 ∷ 8 ∷ []) ++ (7 ∷ [])) 5
      ≡ replied reply (7 ∷ []) (write_values counting 0 4 (take 65533 (6 ∷ 8 ∷ [])) 5))
    × (writes 4 (6 ∷ 8 ∷ []) (record { available = 9; late = true } ∷ []) (reply ++ (9 ∷ []))
        ≡ ok (9 ∷ []))
write_end_to_end_example =
    write_end_to_end counting 0 4 (6 ∷ 8 ∷ []) 5 (record { available = 9; late = true }) (7 ∷ [])
      (9 ∷ []) (omega arith) (omega arith, (omega arith, tt)) (omega arith)
