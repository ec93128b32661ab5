-- ===== src/Ota.antt =====
-- The download of a firmware: sdk_src/ota_client.c. The channel to the server and the download
-- itself are replies; the hash context is the bytes that it has been given, and what it makes of
-- them is a parameter. A handle that is given is not null.
mod Tests
pub mod Download
use esp_qcloud.Prelude.{
  ℕ, zero, suc, ◌+◌, ◌*◌, ◌/◌, ◌%◌, ◌^◌, ◌-◌, Option, none, some, Bool, true, false, ◌&&◌, ◌||◌,
  not, List, [], ◌∷◌, ◌++◌, length, ltb, leb, ◌==◌, if◌then◌else◌,
}

-- `IOT_OTA_State_Code`
pub data OtaState : Type 0 where
  uninited inited fetching fetched disconnected : OtaState

-- The IOT_OTA_ERR_ values, and QCLOUD_ERR_FAILURE.
pub data OtaError : Type 0 where
  fail invalid_param invalid_state str_too_long fetch_failed fetch_not_exist : OtaError
  fetch_auth_fail fetch_timeout nomem osc_failed report_version no_error : OtaError

-- `IOT_OTAReportType`
pub data ReportType : Type 0 where
  download_timeout file_not_exist auth_fail md5_not_match upgrade_fail : ReportType
  download_begin downloading upgrade_begin upgrade_success : ReportType

pub data Report : Type 0 where
  progress : ℕ → ReportType → Report
  upgrade_result : List ℕ → ReportType → Report

pub record Ota : Type 0 where
  pub state : OtaState
  pub size_last_fetched : ℕ
  pub size_fetched : ℕ
  pub size_file : ℕ
  pub version : List ℕ
  pub md5sum : List ℕ
  -- The bytes that the context `md5` was updated with.
  pub md5 : List ℕ
  pub err : OtaError
  pub report_timer : ℕ
  -- The readings of the clock that decide the timer; without one it has expired.
  pub clock : List ℕ
  -- What a report that fails leaves in `err`; without a reply a report succeeds.
  pub replies : List (Option OtaError)
  pub reports : List Report

unfoldable pub take_reply : List (Option OtaError) → Report → Ota → Ota
take_reply [] r o = record o { reports = o.reports ++ (r ∷ []) }
take_reply (none ∷ rs) r o = record o { reports = o.reports ++ (r ∷ []); replies = rs }
take_reply (some e ∷ rs) r o = record o { err = e; replies = rs }

abbrev pub is_uninited : OtaState → Bool
is_uninited uninited = true
is_uninited inited = false
is_uninited fetching = false
is_uninited fetched = false
is_uninited disconnected = false

-- `IOT_OTA_ReportProgress`, whose result no caller looks at: a percentage is not negative.
unfoldable pub report_progress : ℕ → ReportType → Ota → Ota
report_progress percent kind o =
    if is_uninited o.state
    then record o { err = invalid_state }
    else if ltb 100 percent
    then record o { err = invalid_param }
    else take_reply o.replies (progress percent kind) o

-- `IOT_OTA_ReportUpgradeResult` of the handle's version
unfoldable pub report_upgrade_result : ReportType → Ota → Ota
report_upgrade_result kind o =
    if is_uninited o.state
    then record o { err = invalid_state }
    else if ltb (length o.version) 1 || ltb 32 (length o.version)
    then record o { err = invalid_param }
    else take_reply o.replies (upgrade_result o.version kind) o

unfoldable pub take_reading : List ℕ → Ota → Option ℕ × Ota
take_reading [] o = (none, o)
take_reading (t ∷ ts) o = (some t, record o { clock = ts })

-- `countdown` of one second, in milliseconds
unfoldable pub restart_timer : Ota → Ota
restart_timer o =
    let (now, o') = take_reading o.clock o in
    record o' { report_timer = elim now [ none ↦ 0 | some t ↦ (t + 1000) % 2 ^ 32 ] }

unfoldable pub has_expired : ℕ → Option ℕ → Bool
has_expired end_time none = true
has_expired end_time (some now) =
    let left = (end_time + 2 ^ 32 - now) % 2 ^ 32 in not (ltb 0 left && ltb left (2 ^ 31))

-- What the download gives: some bytes, or an error.
pub data Fetch : Type 0 where
  got : List ℕ → Fetch
  failed : OtaError → Fetch

-- What a call returns; a division by zero returns nothing.
pub data Result : Type 0 where
  count : ℕ → Result
  error : OtaError → Result
  divided_by_zero : Result

-- The report of a failure, for the errors that have one.
unfoldable pub report_failure : OtaError → Ota → Ota
report_failure fetch_auth_fail o = record (report_upgrade_result auth_fail o) {
  err = fetch_auth_fail;
}
report_failure fetch_not_exist o = record (report_upgrade_result file_not_exist o) {
  err = fetch_not_exist;
}
report_failure fetch_timeout o = record (report_upgrade_result download_timeout o) {
  err = fetch_timeout;
}
report_failure _ o = o

-- The first report, which starts the timer.
unfoldable pub report_begin : Ota → Ota
report_begin o =
    if o.size_fetched == 0 then restart_timer (report_progress 0 download_begin o) else o

-- The report of a percentage: at the end, and else when the timer has expired and bytes have come.
unfoldable pub report_percent : ℕ → Ota → Ota
report_percent percent o =
    let (now, o') = take_reading o.clock o in
    if percent == 100
    then report_progress percent downloading o
    else if not (ltb 0 o.size_last_fetched)
    then o
    else if has_expired o.report_timer now
    then restart_timer (report_progress percent downloading o')
    else o'

unfoldable pub take_bytes : List ℕ → Ota → Result × Ota
take_bytes bytes o =
    let begun = report_begin o in
    let counted = record begun {
      size_last_fetched = length bytes;
      size_fetched = (begun.size_fetched + length bytes) % 2 ^ 32;
    } in
    let told = report_percent (counted.size_fetched * 100 % 2 ^ 32 / counted.size_file) counted in
    if counted.size_file == 0 then (divided_by_zero, counted) else (
      count (length bytes),
      record told {
        state = if leb told.size_file told.size_fetched then fetched else told.state;
        md5 = told.md5 ++ bytes;
      },
    )

unfoldable pub fetch_in : OtaState → Fetch → Ota → Result × Ota
fetch_in fetching (got bytes) o = take_bytes bytes o
fetch_in fetching (failed e) o =
    (error e, report_failure e (record o { state = fetched; err = fetch_failed }))
fetch_in uninited f o = (error invalid_state, record o { err = invalid_state })
fetch_in inited f o = (error invalid_state, record o { err = invalid_state })
fetch_in fetched f o = (error invalid_state, record o { err = invalid_state })
fetch_in disconnected f o = (error invalid_state, record o { err = invalid_state })

-- `IOT_OTA_FetchYield`
unfoldable pub fetch_yield : Fetch → Ota → Result × Ota
fetch_yield f o = fetch_in o.state f o

unfoldable pub same_text : List ℕ → List ℕ → Bool
same_text [] [] = true
same_text [] (y ∷ ys) = false
same_text (x ∷ xs) [] = false
same_text (x ∷ xs) (y ∷ ys) = x == y && same_text xs ys

unfoldable pub check_in : OtaState → (List ℕ → List ℕ) → (List ℕ → List ℕ) → Ota → Result × Ota
check_in uninited digest finish o = (error invalid_state, record o { err = invalid_state })
check_in inited digest finish o = (error invalid_state, record o { err = invalid_state })
check_in fetching digest finish o = (error fail, record o { err = invalid_state })
check_in disconnected digest finish o = (error fail, record o { err = invalid_state })
check_in fetched digest finish o =
    let o' = record o { md5 = finish o.md5 } in
    if same_text o.md5sum (digest o.md5)
    then (count 1, o')
    else (count 0, report_upgrade_result md5_not_match o')

-- IOT_OTAG_CHECK_FIRMWARE of `IOT_OTA_Ioctl`, for a buffer of four aligned bytes: what is written
-- there. `digest` is the text of the hash of the bytes. To finish the hash changes its context:
-- `finish` is what the context stands for then.
unfoldable pub check_firmware : (List ℕ → List ℕ) → (List ℕ → List ℕ) → Ota → Result × Ota
check_firmware digest finish o = check_in o.state digest finish o

-- `IOT_OTA_StartDownload` up to the connection, and `IOT_OTA_UpdateClientMd5`
unfoldable pub start_download : Bool → Bool → ℕ → Ota → Result × Ota
start_download channel connection offset o =
    let o' = record o { size_fetched = (o.size_fetched + offset) % 2 ^ 32 } in
    if not channel
    then (error fail, o')
    else if connection
    then (count 0, o')
    else (error fail, record o' { state = disconnected })

unfoldable pub update_client_md5 : List ℕ → Ota → Ota
update_client_md5 bytes o = record o { md5 = o.md5 ++ bytes }
