-- ===== src/Ota/Tests.antt =====
-- A file of five bytes in two pieces.
use esp_qcloud.Prelude.{ℕ, ◌+◌, ◌≡◌, refl, arith, true, List, [], ◌∷◌, ◌++◌, if◌then◌else◌, some}
use esp_qcloud.Ota.{
  Ota, fetching, fetched, no_error, invalid_state, count, fetch_auth_fail, failed, fetch_in,
  fetch_yield, report_failure, report_upgrade_result, take_reply, same_text, check_firmware,
}
use esp_qcloud.Ota.Download.{fetch_all, joined, fetch_all_complete}

abbrev a_download : Ota
a_download = record {
  state = fetching;
  size_last_fetched = 0;
  size_fetched = 0;
  size_file = 5;
  version = 0x31 ∷ [];
  md5sum = 9 ∷ 15 ∷ [];
  md5 = [];
  err = no_error;
  report_timer = 0;
  clock = 10 ∷ 20 ∷ [];
  replies = some invalid_state ∷ [];
  reports = [];
}

abbrev sum : List ℕ → ℕ
sum [] = 0
sum (b ∷ bs) = b + sum bs

abbrev digest : List ℕ → List ℕ
digest bytes = 9 ∷ sum bytes ∷ []

abbrev finish : List ℕ → List ℕ
finish bytes = bytes ++ (0x80 ∷ [])

fetch_all_complete_example :
    ((fetch_all (((1 ∷ 2 ∷ 3 ∷ []) ∷ []) ++ ((4 ∷ 5 ∷ []) ∷ [])) a_download).state ≡ fetched)
    × ((fetch_all (((1 ∷ 2 ∷ 3 ∷ []) ∷ []) ++ ((4 ∷ 5 ∷ []) ∷ [])) a_download).size_fetched ≡ 5)
    × ((check_firmware digest finish
          (fetch_all (((1 ∷ 2 ∷ 3 ∷ []) ∷ []) ++ ((4 ∷ 5 ∷ []) ∷ [])) a_download)).0
        ≡ count (
            if same_text
              (9 ∷ 15 ∷ [])
              (digest ([] ++ (joined ((1 ∷ 2 ∷ 3 ∷ []) ∷ []) ++ (4 ∷ 5 ∷ []))))
            then 1
            else 0))
fetch_all_complete_example =
    fetch_all_complete digest finish 5 0 (9 ∷ 15 ∷ []) [] (4 ∷ 5 ∷ []) ((1 ∷ 2 ∷ 3 ∷ []) ∷ [])
      a_download (omega arith) (refl, refl, refl, refl, refl) (omega arith) refl

digest_of_all : same_text (9 ∷ 15 ∷ []) (digest (1 ∷ 2 ∷ 3 ∷ 4 ∷ 5 ∷ [])) ≡ true
unfolding same_text
digest_of_all = refl

-- A download that is refused ends in the state of one that is complete.
refused : (fetch_yield (failed fetch_auth_fail) a_download).1.state ≡ fetched
unfolding fetch_yield fetch_in report_failure report_upgrade_result take_reply
refused = refl
