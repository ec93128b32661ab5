-- ===== src/Ota/Download.antt =====
-- A download from its first byte to the check of the firmware.
use esp_qcloud.Prelude.{
  ℕ, ◌+◌, ◌*◌, ◌/◌, ◌%◌, ◌^◌, ◌<◌, ◌≡◌, refl, sym, ap, ◌∙◌, arith, Option, none, some, true, false,
  not, List, [], ◌∷◌, ◌++◌, length, length-append, ltb, leb, ◌==◌, if◌then◌else◌, Bool-cases, inl,
  inr,
}
use mathlib.Core.List.{append_assoc}
use esp_qcloud.Ota.{
  Ota, fetching, fetched, OtaError, ReportType, Report, progress, download_begin, downloading,
  is_uninited, take_reply, report_progress, take_reading, restart_timer, has_expired, got, Result,
  count, report_begin, report_percent, take_bytes, fetch_in, fetch_yield, same_text, check_in,
  check_firmware,
}

-- A report and its timer change nothing that the download counts.
abbrev Alike : Ota → Ota → Type 0
Alike a b =
    (b.state ≡ a.state)
    × (b.size_fetched ≡ a.size_fetched)
    × (b.size_file ≡ a.size_file)
    × (b.md5 ≡ a.md5)
    × (b.md5sum ≡ a.md5sum)

same : (a : Ota) → Alike a a
same a = (refl, refl, refl, refl, refl)

then-Alike : (a b c : Ota) → Alike a b → Alike b c → Alike a c
then-Alike a b c (s, f, l, m, t) (s', f', l', m', t') = (s' ∙ s, f' ∙ f, l' ∙ l, m' ∙ m, t' ∙ t)

take_reply-Alike :
    (rs : List (Option OtaError)) (r : Report) (o : Ota) → Alike o (take_reply rs r o)
unfolding take_reply
take_reply-Alike [] r o = same o
take_reply-Alike (none ∷ rs) r o = same o
take_reply-Alike (some e ∷ rs) r o = same o

report_progress-Alike :
    (percent : ℕ) (kind : ReportType) (o : Ota) → Alike o (report_progress percent kind o)
unfolding report_progress
report_progress-Alike percent kind o = elim (Bool-cases (is_uninited o.state)) [
  | inl y ↦ rw y (same o)
  | inr n ↦ elim (Bool-cases (ltb 100 percent)) [
    | inl y ↦ rw n (rw y (same o))
    | inr z ↦ rw n (rw z (take_reply-Alike o.replies (progress percent kind) o))
  ]
]

take_reading-Alike : (ts : List ℕ) (o : Ota) → Alike o (take_reading ts o).1
unfolding take_reading
take_reading-Alike [] o = same o
take_reading-Alike (t ∷ ts) o = same o

restart_timer-Alike : (o : Ota) → Alike o (restart_timer o)
unfolding restart_timer
restart_timer-Alike o = take_reading-Alike o.clock o

report_begin-Alike : (o : Ota) → Alike o (report_begin o)
unfolding report_begin
report_begin-Alike o = elim (Bool-cases (o.size_fetched == 0)) [
  | inl y ↦ rw y (
      then-Alike o (report_progress 0 download_begin o)
        (restart_timer (report_progress 0 download_begin o))
        (report_progress-Alike 0 download_begin o)
        (restart_timer-Alike (report_progress 0 download_begin o)))
  | inr n ↦ rw n (same o)
]

report_percent-Alike : (percent : ℕ) (o : Ota) → Alike o (report_percent percent o)
unfolding report_percent
report_percent-Alike percent o =
    let (now, o') = take_reading o.clock o in
    let read : Alike o o' = take_reading-Alike o.clock o in
    elim (Bool-cases (percent == 100)) [
      | inl y ↦ rw y (report_progress-Alike percent downloading o)
      | inr n ↦ elim (Bool-cases (not (ltb 0 o.size_last_fetched))) [
        | inl y ↦ rw n (rw y (same o))
        | inr z ↦ elim (Bool-cases (has_expired o.report_timer now)) [
          | inl y ↦ rw n (
              rw z (
                rw y (
                  then-Alike o o' (restart_timer (report_progress percent downloading o')) read (
                    then-Alike o' (report_progress percent downloading o')
                      (restart_timer (report_progress percent downloading o'))
                      (report_progress-Alike percent downloading o')
                      (restart_timer-Alike (report_progress percent downloading o'))))))
          | inr w ↦ rw n (rw z (rw w read))
        ]
      ]
    ]

-- What the bytes of one call do to a download.
abbrev Taken : List ℕ → Ota → Result × Ota → Type 0
Taken bytes o (r, d) =
    (r ≡ count (length bytes))
    × (d.size_fetched ≡ (o.size_fetched + length bytes) % 2 ^ 32)
    × (d.size_file ≡ o.size_file)
    × (d.md5 ≡ o.md5 ++ bytes)
    × (d.md5sum ≡ o.md5sum)
    × (d.state
        ≡ (if leb o.size_file ((o.size_fetched + length bytes) % 2 ^ 32) then fetched else o.state))

take_bytes-Taken : (bytes : List ℕ) (o : Ota) → 0 < o.size_file → Taken bytes o (take_bytes bytes o)
unfolding take_bytes
take_bytes-Taken bytes o some_file =
    let begun = report_begin o in
    let (s, f, l, m, t) = report_begin-Alike o in
    let counted = record begun {
      size_last_fetched = length bytes;
      size_fetched = (begun.size_fetched + length bytes) % 2 ^ 32;
    } in
    let percent = counted.size_fetched * 100 % 2 ^ 32 / counted.size_file in
    let (s', f', l', m', t') = report_percent-Alike percent counted in
    let file : (counted.size_file == 0) ≡ false = rw l (ground arith) in
    rw (file, s', f', l', m', t', s, f, l, m, t) (refl, refl, refl, refl, refl, refl)

-- Calls of the download, one for each piece.
unfoldable pub fetch_all : List (List ℕ) → Ota → Ota
fetch_all [] o = o
fetch_all (b ∷ bs) o = fetch_all bs (fetch_yield (got b) o).1

abbrev pub joined : List (List ℕ) → List ℕ
joined [] = []
joined (b ∷ bs) = b ++ joined bs

-- What is downloaded of the file, and what the hash has seen.
abbrev pub Running : ℕ → List ℕ → List ℕ → ℕ → Ota → Type 0
Running file md5sum seen n o =
    (o.state ≡ fetching)
    × (o.size_fetched ≡ n)
    × (o.size_file ≡ file)
    × (o.md5 ≡ seen)
    × (o.md5sum ≡ md5sum)

fetch_yield-Taken :
    (file n : ℕ) (md5sum seen bytes : List ℕ) (o : Ota)
    → 0 < file
    → Running file md5sum seen n o
    → Taken bytes o (fetch_yield (got bytes) o)
unfolding fetch_yield fetch_in
fetch_yield-Taken file n md5sum seen bytes o some_file (s, f, l, m, t) =
    let taken : fetch_in o.state (got bytes) o ≡ take_bytes bytes o =
      ap (λ st. fetch_in st (got bytes) o) s in
    rw taken (take_bytes-Taken bytes o (rw l some_file))

-- A piece that does not end the file.
next-Running :
    (file n : ℕ) (md5sum seen bytes : List ℕ) (o : Ota)
    → file < 2 ^ 32
    → n + length bytes < file
    → Running file md5sum seen n o
    → Running file md5sum (seen ++ bytes) (n + length bytes) (fetch_yield (got bytes) o).1
next-Running file n md5sum seen bytes o small more running =
    let (s, f, l, m, t) = running in
    let (r, f', l', m', t', s') =
      fetch_yield-Taken file n md5sum seen bytes o (omega arith) running in
    let sum : (o.size_fetched + length bytes) % 2 ^ 32 ≡ n + length bytes = omega (arith, f) in
    let test : leb o.size_file ((o.size_fetched + length bytes) % 2 ^ 32) ≡ false =
      rw (sum, l) (ground arith) in
    (s' ∙ rw test s, f' ∙ sum, l' ∙ l, m' ∙ ap (λ x. x ++ bytes) m, t' ∙ t)

check_fetched :
    (digest finish : List ℕ → List ℕ) (d : Ota)
    → d.state ≡ fetched
    → (check_firmware digest finish d).0
      ≡ count (if same_text d.md5sum (digest d.md5) then 1 else 0)
unfolding check_firmware check_in
check_fetched digest finish d s =
    ap (λ st. (check_in st digest finish d).0) s
    ∙ elim (Bool-cases (same_text d.md5sum (digest d.md5))) [
      | inl y ↦ rw y refl
      | inr n ↦ rw n refl
    ]

-- The piece that ends the file.
last-Running :
    (digest finish : List ℕ → List ℕ) (file n : ℕ) (md5sum seen last : List ℕ) (o : Ota)
    → file < 2 ^ 32
    → 0 < length last
    → Running file md5sum seen n o
    → n + length last ≡ file
    → ((fetch_yield (got last) o).1.state ≡ fetched)
      × ((fetch_yield (got last) o).1.size_fetched ≡ file)
      × ((check_firmware digest finish (fetch_yield (got last) o).1).0
          ≡ count (if same_text md5sum (digest (seen ++ last)) then 1 else 0))
last-Running digest finish file n md5sum seen last o small some_left running total =
    let (s, f, l, m, t) = running in
    let d = (fetch_yield (got last) o).1 in
    let (r, f', l', m', t', s') =
      fetch_yield-Taken file n md5sum seen last o (omega arith) running in
    let sum : (o.size_fetched + length last) % 2 ^ 32 ≡ file = omega (arith, f) in
    let test : leb o.size_file ((o.size_fetched + length last) % 2 ^ 32) ≡ true =
      rw (sum, l) (ground arith) in
    let ended : d.state ≡ fetched = s' ∙ rw test refl in
    let hashed : d.md5 ≡ seen ++ last = m' ∙ ap (λ x. x ++ last) m in
    let wanted : d.md5sum ≡ md5sum = t' ∙ t in
    (
      ended,
      f' ∙ sum,
      check_fetched digest finish d ended
          ∙ ap (λ x. count (if same_text x (digest d.md5) then 1 else 0)) wanted
          ∙ ap (λ x. count (if same_text md5sum (digest x) then 1 else 0)) hashed,
    )

-- A download of a file of less than 2 ^ 32 bytes whose pieces, after the `n` bytes that are there,
-- make up just the file: after the last piece, which is not empty, the handle is in the state FETCHED
-- and has counted the file, and the check of the firmware says 1 if the digest of the bytes hashed
-- before and of all pieces in their order is the text that the server sent, and 0 otherwise; whatever
-- becomes of the reports on the way.
pub fetch_all_complete :
    (digest finish : List ℕ → List ℕ) (file n : ℕ) (md5sum seen last : List ℕ)
    (pieces : List (List ℕ)) (o : Ota)
    → file < 2 ^ 32
    → Running file md5sum seen n o
    → 0 < length last
    → n + length (joined pieces) + length last ≡ file
    → ((fetch_all (pieces ++ (last ∷ [])) o).state ≡ fetched)
      × ((fetch_all (pieces ++ (last ∷ [])) o).size_fetched ≡ file)
      × ((check_firmware digest finish (fetch_all (pieces ++ (last ∷ [])) o)).0
          ≡ count (if same_text md5sum (digest (seen ++ (joined pieces ++ last))) then 1 else 0))
unfolding fetch_all
fetch_all_complete digest finish file n md5sum seen last [] o small running some_left total =
    last-Running digest finish file n md5sum seen last o small some_left running (omega arith)
fetch_all_complete digest finish file n md5sum seen last (b ∷ bs) o small running some_left total =
    let size = length-append b (joined bs) in
    let step = next-Running file n md5sum seen b o small (omega (arith, size)) running in
    let done =
      fetch_all_complete digest finish file (n + length b) md5sum (seen ++ b) last bs
        (fetch_yield (got b) o).1 small step some_left (omega (arith, size)) in
    rw (append_assoc b (joined bs) last, sym (append_assoc seen b (joined bs ++ last))) done
