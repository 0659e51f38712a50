-- ===== src/Rewardpop/Client.antt =====
-- The calls of the provider (`_request`, `_error_detail`, `create_order`, `create_blog_order` and
-- `get_order_status` of app/services/rewardpop.py). What the connection gives back is a parameter.
use beautypos.Prelude.{
  ℕ, Bool, true, false, ◌||◌, ltb, ◌==◌, if◌then◌else◌, [], ◌∷◌, ◌++◌, Option, none, some, Result,
  ok, err, ◌>>=◌, not,
}
use beautypos.Prelude.Int.{pos, eqb_ℤ}
use beautypos.Text.{Text, text_eq, codes, is_empty}
use beautypos.Dispatch.Provider.{
  Error, spec_missing, rewardpop_error, Reply, Reported, as_sent, Payload,
}
use beautypos.Dispatch.Blog.{BlogPayload}
use beautypos.Rewardpop.Json.{
  Json, boolean, whole, text, object, Fields, no_field, field, decimal, find_identifier,
  status_text, first_of,
}
use beautypos.Rewardpop.Counts.{extract_counts}
use beautypos.Rewardpop.Status.{map_external_status}

-- What a request over HTTP comes to: a body that is no JSON is missing.
pub data Response : Type 0 where
  timed_out unreachable : Response
  answered : ℕ → Option Json → Response

unfoldable pub get : Text → Fields → Option Json
get key no_field = none
get key (field name v fs) = let rest = get key fs in if text_eq name key then some v else rest

abbrev pub text_field : Text → Fields → Option Text
text_field key fs = elim (get key fs) [ none ↦ none | some v ↦ status_text v ]

-- The first of the fields that has a text
abbrev pub detail_of : Option Json → Option Text
detail_of (some (object fs)) = first_of (text_field (codes "message") fs) (
    first_of (text_field (codes "detail") fs)
      (first_of (text_field (codes "error") fs) (text_field (codes "msg") fs)))
detail_of _ = none

abbrev pub http : ℕ → Text
http status = codes " (HTTP " ++ (decimal (pos status) ++ codes ")")

unfoldable pub error_detail : Option Json → ℕ → Text
unfolding get status_text decimal
error_detail body status = elim (detail_of body) [
  | some detail ↦ detail ++ http status
  | none ↦ codes "요청이 거절되었습니다." ++ http status
]

-- The errors by the status, from the top
unfoldable pub answer : Text → ℕ → Option Json → Result Error Json
unfolding error_detail decimal
answer path status body =
    if status == 401 || status == 403
    then err (rewardpop_error (codes "API 키가 올바르지 않거나 권한이 없습니다.") false)
    else if status == 404
    then err (spec_missing (codes "경로를 찾을 수 없습니다 (" ++ (path ++ codes "). 연동 설정의 경로를 확인해주세요.")))
    else if status == 429
    then err (rewardpop_error (codes "요청 한도를 초과했습니다.") true)
    else if ltb 499 status
    then err (rewardpop_error (codes "리워드팝 서버 오류입니다." ++ http status) true)
    else if ltb 399 status
    then err (rewardpop_error (error_detail body status) false)
    else elim body [
      | some json ↦ ok json
      | none ↦ err (rewardpop_error (codes "리워드팝 응답을 해석하지 못했습니다 (JSON 아님).") false)
    ]

unfoldable pub request : Bool → Text → Response → Result Error Json
unfolding answer
request has_key path response =
    if not has_key
    then err (rewardpop_error (codes "리워드팝 API 키가 등록되지 않았습니다.") false)
    else if is_empty path
    then err (spec_missing (codes "호출 경로가 설정되지 않았습니다. 연동 설정에서 경로를 입력해주세요."))
    else elim response [
      | timed_out ↦ err (rewardpop_error (codes "리워드팝 응답이 지연되었습니다.") true)
      | unreachable ↦ err (rewardpop_error (codes "리워드팝 서버에 연결하지 못했습니다.") true)
      | answered status body ↦ answer path status body
    ]

-- `body.get("groupId")` of an object, unless it is empty. The text of one that is a fraction, an array
-- or an object is left out: it counts as missing here, and the code would take it.
abbrev pub group_value : Json → Option Text
group_value (text []) = none
group_value (text (c ∷ s)) = some (c ∷ s)
group_value (whole n) = if eqb_ℤ n (pos 0) then none else some (decimal n)
group_value (boolean true) = some (codes "True")
group_value _ = none

abbrev pub value_in : Option Json → Option Text
value_in none = none
value_in (some v) = group_value v

unfoldable pub group_id : Json → Option Text
unfolding get decimal
group_id (object fs) = value_in (get (codes "groupId") fs)
group_id _ = none

abbrev pub or_sent : Option Reported → Option Reported
or_sent none = some as_sent
or_sent (some s) = some s

-- An order that may have been placed is not to be tried again by itself.
unfoldable pub not_again : Text → Result Error Json → Result Error Json
not_again note (ok body) = ok body
not_again note (err (spec_missing message)) = err (spec_missing message)
not_again note (err (rewardpop_error message false)) = err (rewardpop_error message false)
not_again note (err (rewardpop_error message true)) = err (rewardpop_error (message ++ note) false)

module _ (lower : Text → Text) where
  unfoldable pub reply_of : Json → Option Text → Reply
  unfolding map_external_status extract_counts
  reply_of body id =
      let found = map_external_status lower body in
      record {
        external_order_id = id;
        status = or_sent found.0;
        raw_status = found.1;
        counts = extract_counts lower body;
      }

  unfoldable pub with_id : Text → Json → Option Text → Result Error Reply
  unfolding reply_of
  with_id missing body none = err (rewardpop_error missing false)
  with_id missing body (some id) = ok (reply_of body (some id))

  unfoldable pub order_reply : Text → Json → Result Error Reply
  unfolding group_id find_identifier with_id
  order_reply missing body =
      with_id missing body (first_of (group_id body) (find_identifier lower body))

  unfoldable pub create_order : Bool → Text → (Payload → Response) → Payload → Result Error Reply
  unfolding request not_again order_reply
  create_order has_key [] connection payload =
      err (spec_missing (codes "주문 생성 경로가 아직 설정되지 않았습니다. 연동 설정에서 경로를 입력해주세요."))
  create_order has_key (c ∷ path) connection payload =
      not_again (codes " 주문 접수 여부를 리워드팝에서 확인한 뒤 재시도해주세요.")
        (request has_key (c ∷ path) (connection payload))
      >>= order_reply (codes "주문은 전송했지만 응답에서 주문번호를 찾지 못했습니다. 리워드팝 관리자 화면에서 접수 여부를 확인해주세요.")

  unfoldable pub create_blog_order :
      Bool → Text → (BlogPayload → Response) → BlogPayload → Result Error Reply
  unfolding request not_again order_reply
  create_blog_order has_key [] connection payload =
      err (spec_missing (codes "블로그 주문 생성 경로가 아직 설정되지 않았습니다. 연동 설정에서 경로를 확인해주세요."))
  create_blog_order has_key (c ∷ path) connection payload =
      not_again (codes " 블로그 주문 접수 여부를 리워드팝에서 확인한 뒤 재시도해주세요.")
        (request has_key (c ∷ path) (connection payload))
      >>= order_reply (codes "블로그 주문은 전송했지만 응답에서 주문번호를 찾지 못했습니다. 리워드팝 관리자 화면에서 접수 여부를 확인해주세요.")

  unfoldable pub status_reply : Json → Reply
  unfolding map_external_status extract_counts
  status_reply body = record {
    external_order_id = none;
    status = (map_external_status lower body).0;
    raw_status = (map_external_status lower body).1;
    counts = extract_counts lower body;
  }

  -- A number that is put into the path, or asked for by `groupId`
  unfoldable pub get_order_status :
      Bool → Text → (Text → Text → Response) → Text → Result Error Reply
  unfolding request status_reply
  get_order_status has_key path connection id =
      if is_empty path
      then err (spec_missing (codes "상태 조회 경로가 아직 설정되지 않았습니다."))
      else if is_empty id
      then err (rewardpop_error (codes "외부 주문번호가 없어 상태를 조회할 수 없습니다.") false)
      else (request has_key path (connection path id) >>= λ body. ok (status_reply body))
