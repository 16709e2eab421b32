-- ===== src/Web/Health.antt =====
-- frontend/src/components/HealthHistoryModal.jsx, DiagnoseModal.jsx and StatusCard.jsx.
pub mod Rows
use peer_wan.Prelude.{
  ℕ, String, ◌==◌, Bool, true, false, Option, none, some, List, [], ◌∷◌, ◌++◌, ◌⧺◌, map, decimal,
  ltb, is_blank, if◌then◌else◌,
}
use peer_wan.Prelude.Dict.{Dict, lookup}
use peer_wan.Web.Js.{
  Toast, JsError, shown, Act, pure, try_catch, finally_do, set_own, toast, ◌>>=◌, ◌>>◌,
}
use peer_wan.Web.Api.{Net, Answer, Reply, object, plain, api, no_options}

-- An entry of `/api/v1/health/history`, with its figures as the texts that are shown; a map that is
-- missing or `null` is `none`.
pub record Sample : Type 0 where
  pub timestamp : String
  pub latency_ms : Option (Dict String)
  pub packet_loss : Option (Dict String)

pub record Row : Type 0 where
  pub timestamp : String
  pub target : String
  pub latency : String
  pub loss : Option String

abbrev or_no_entries : Option (Dict String) → Dict String
or_no_entries none = []
or_no_entries (some m) = m

-- The rows of one sample: one for each key of its latencies.
unfoldable pub sample_rows : String → Dict String → Dict String → List Row
sample_rows at losses [] = []
sample_rows at losses ((ip, ms) ∷ rest) =
    record { timestamp = at; target = ip; latency = ms; loss = lookup ip losses }
    ∷ sample_rows at losses rest

unfoldable pub rows : List Sample → List Row
unfolding sample_rows
rows [] = []
rows (h ∷ rest) =
    sample_rows h.timestamp (or_no_entries h.packet_loss) (or_no_entries h.latency_ms) ++ rows rest

-- `rows.sort((a, b) => new Date(b.timestamp) - new Date(a.timestamp))`, which is stable; `time` is
-- the number that `new Date` gives for a timestamp.
module _ (time : String → ℕ) where
  unfoldable pub insert_newest : Row → List Row → List Row
  insert_newest r [] = r ∷ []
  insert_newest r (t ∷ rest) =
      if ltb (time r.timestamp) (time t.timestamp) then t ∷ insert_newest r rest else r ∷ t ∷ rest

  unfoldable pub newest_first : List Row → List Row
  unfolding insert_newest
  newest_first [] = []
  newest_first (r ∷ rest) = insert_newest r (newest_first rest)

pub record HistoryPage : Type 0 where
  pub loading : Bool
  pub samples : List Sample

-- `res || []`; a text has no samples
abbrev samples_of : Reply (Option (List Sample)) → List Sample
samples_of (object (some l)) = l
samples_of (object none) = []
samples_of (plain _) = []

pub record CheckResult : Type 0 where
  pub check : String
  pub severity : String
  pub detail : String

pub record Diagnosis : Type 0 where
  pub summary : Option String
  pub results : Option (List CheckResult)

pub record DiagnosePage : Type 0 where
  pub loading : Bool
  pub diagnosis : Option (Reply Diagnosis)

module _ (net : Net) (encode : String → String) where
  -- `load` of HealthHistoryModal
  unfoldable pub load_history :
      (String → Answer (Option (List Sample))) → String → Act HistoryPage (Unit {0})
  unfolding api
  load_history parse id = do
    set_own (λ s. record s { loading = true })
    finally_do
        (try_catch
          (do
            res ←
                api net parse ("/api/v1/health/history?nodeId=" ⧺ encode id ⧺ "&hours=24")
                  no_options
            set_own (λ s. record s { samples = samples_of res }))
          (λ e. toast (Toast.failure "加载历史失败")))
        (λ p. record p { own = record p.own { loading = false } })

  -- `load` of DiagnoseModal
  unfoldable pub load_diagnosis : (String → Answer Diagnosis) → String → Act DiagnosePage (Unit {0})
  unfolding api
  load_diagnosis parse id = do
    set_own (λ s. record s { loading = true })
    finally_do
        (try_catch
          (do
            res ← api net parse ("/api/v1/diagnose?nodeId=" ⧺ encode id) no_options
            set_own (λ s. record s { diagnosis = some res }))
          (λ e. toast (Toast.failure ("诊断失败: " ⧺ shown e))))
        (λ p. record p { own = record p.own { loading = false } })

-- `colorMap[item.severity] || 'default'`
unfoldable pub severity_color : String → String
severity_color s =
    if s == "ok"
    then "green"
    else if s == "warn"
    then "orange"
    else if s == "fail"
    then "red"
    else if s == "info"
    then "blue"
    else "default"

-- The data of StatusCard and its six lines.
pub record Info : Type 0 where
  pub store : Option String
  pub store_status : Option String
  pub consul_addr : Option String
  pub mysql : Option String
  pub public_addr : Option String
  pub plan_version : Option ℕ
  pub build_version : Option String

abbrev or_shown : String → Option String → String
or_shown d none = d
or_shown d (some s) = if is_blank s then d else s

abbrev or_zero : Option ℕ → String
or_zero none = "0"
or_zero (some n) = decimal n

unfoldable pub status_lines : Info → List String
status_lines d =
    ("Store: " ⧺ or_shown "" d.store ⧺ " (" ⧺ or_shown "-" d.store_status ⧺ ")")
    ∷ ("Consul: " ⧺ or_shown "-" d.consul_addr)
    ∷ ("MySQL: " ⧺ or_shown "-" d.mysql)
    ∷ ("PublicAddr: " ⧺ or_shown "-" d.public_addr)
    ∷ ("PlanVersion: " ⧺ or_zero d.plan_version)
    ∷ ("Build: " ⧺ or_shown "dev" d.build_version)
    ∷ []
