-- ===== src/Backend/Answers.antt =====
-- gateway/backend_adapter.py: how the calls of a backend end.
use secure_gpu_inference_gat.Prelude.{
  ◌≡◌, refl, ℕ, String, Bool, true, false, Option, none, some, List, ◌⊎◌, inl, inr, Option-cases,
  string_eq, Result, ok, err, ◌>>=◌, raise_if, >>=-eq-err, if◌then◌else◌,
}
use Prim.Native.String.{◌++◌}
use mathlib.Core.Path.{subst}
use secure_gpu_inference_gat.Text.{strip, is_empty}
use secure_gpu_inference_gat.Text.Affix.{ends_with, rstrip_slash}
use secure_gpu_inference_gat.Errors.{Exception, backend_adapter_error}
use secure_gpu_inference_gat.Json.{
  Float, Json, end, get, null, bool, int, float, str, arr, obj, field, Loaded, value, invalid,
  broke_off,
}
use secure_gpu_inference_gat.Backend.{
  completion_url, extract_completion, or_fail, as_dict, first_choice, as_text, output_of,
}
use secure_gpu_inference_gat.Backend.Request.{
  Transport, Fetch, received, request_failed, broke, HttpRequest, after_fetch, after_loads,
  usage_of, read_answer, raise_some, run_openai_compatible_inference,
}

abbrev pub IsAdapterError : Exception → Type 0
IsAdapterError e = (text : String) × (e ≡ backend_adapter_error text)

-- The exceptions of a step are all of a kind.
abbrev FailsOnly : {A : Type 0} → (Exception → Type 0) → Result Exception A → Type 0
FailsOnly P r = (e : Exception) → r ≡ err e → P e

module _ (P : Exception → Type 0) where
  ok_only : {A : Type 0} (a : A) → FailsOnly P (ok a)
  ok_only a e h = cc

  err_only : {A : Type 0} (x : Exception) → P x → FailsOnly {A = A} P (err x)
  err_only x here e h = let same : x ≡ e = cc in subst P same here

  then_only :
      {A B : Type 0} (first : Result Exception A) (rest : A → Result Exception B)
      → FailsOnly P first
      → ((a : A) → FailsOnly P (rest a))
      → FailsOnly P (first >>= rest)
  then_only first rest fine more e h = elim (>>=-eq-err first rest h) [
    | inl here ↦ fine e here
    | inr (a, _, later) ↦ more a e later
  ]

  if_only :
      {A : Type 0} (b : Bool) {r s : Result Exception A}
      → FailsOnly P r
      → FailsOnly P s
      → FailsOnly P (if b then r else s)
  if_only true left right = left
  if_only false left right = right

module _ (P : Exception → Type 0) (adapter : (text : String) → P (backend_adapter_error text)) where
  fails_well : {A : Type 0} (text : String) → FailsOnly {A = A} P (err (backend_adapter_error text))
  fails_well text = err_only P _ (adapter text)

  or_fail_only : {A : Type 0} (o : Option A) (text : String) → FailsOnly P (or_fail o text)
  or_fail_only none text = fails_well text
  or_fail_only (some a) text = ok_only P a

  raise_if_only : (b : Bool) (text : String) → FailsOnly P (raise_if b (backend_adapter_error text))
  raise_if_only true text = fails_well text
  raise_if_only false text = ok_only P tt

  extract_completion_only : (j : Json) → FailsOnly P (extract_completion j)
  unfolding extract_completion
  extract_completion_only j = then_only P _ _ (or_fail_only (as_dict j) _) (λ payload.
      then_only P _ _ (or_fail_only (first_choice (get payload "choices")) _) (λ choice.
        then_only P _ _ (or_fail_only (as_text (output_of choice)) _) (λ output. ok_only P _)))

  usage_of_only : (usage : Option Json) → FailsOnly P (usage_of usage)
  unfolding usage_of
  usage_of_only none = ok_only P _
  usage_of_only (some null) = ok_only P _
  usage_of_only (some (bool b)) = fails_well _
  usage_of_only (some (int n)) = fails_well _
  usage_of_only (some (float f)) = fails_well _
  usage_of_only (some (str s)) = fails_well _
  usage_of_only (some (arr js)) = fails_well _
  usage_of_only (some (obj end)) = ok_only P _
  usage_of_only (some (obj (field k v fs))) = ok_only P _

  read_answer_only :
      (model : String) (latency : Float) (j : Json) → FailsOnly P (read_answer model latency j)
  unfolding read_answer
  read_answer_only model latency j =
      then_only P _ _ (extract_completion_only j)
        (λ found. then_only P _ _ (usage_of_only _) (λ usage. ok_only P _))

  completion_url_only : (endpoint : String) → FailsOnly P (completion_url endpoint)
  unfolding completion_url
  completion_url_only endpoint =
      let n = rstrip_slash (strip endpoint) in
      if_only P (is_empty n) (fails_well "backend endpoint must not be empty") (
        if_only P (ends_with n "/completions") (ok_only P n) (
          if_only P (ends_with n "/v1") (ok_only P (n ++ "/completions"))
            (ok_only P (n ++ "/v1/completions"))))

-- Where an exception may come from: the adapter itself, or a library outside what it catches.
abbrev pub IsExplained : Transport → Exception → Type 0
IsExplained t e =
    ((text : String) × (e ≡ backend_adapter_error text))
    ⊎ ((url : String) × (t.refuses url ≡ some e))
    ⊎ ((request : HttpRequest) × (timeout : Float) × (t.open_url request timeout ≡ broke e))
    ⊎ ((bytes : List ℕ) × (t.loads bytes ≡ broke_off e))

module _ (t : Transport) where
  adapter_error : (text : String) → IsExplained t (backend_adapter_error text)
  adapter_error text = inl (text, refl)

  refuses_only : (url : String) → FailsOnly (IsExplained t) (raise_some (t.refuses url))
  refuses_only url = elim (Option-cases (t.refuses url)) [
    | inl fine ↦ rw fine (ok_only (IsExplained t) tt)
    | inr (x, raised) ↦ rw raised (err_only (IsExplained t) x (inr (inl (url, raised))))
  ]

  loaded_only :
      (bytes : List ℕ) (l : Loaded) → t.loads bytes ≡ l → FailsOnly (IsExplained t) (after_loads l)
  loaded_only bytes (value j) same = ok_only (IsExplained t) j
  loaded_only bytes invalid same = fails_well (IsExplained t) adapter_error _
  loaded_only bytes (broke_off x) same = err_only (IsExplained t) x (inr (inr (inr (bytes, same))))

  fetched_only :
      (request : HttpRequest) (timeout : Float) (f : Fetch)
      → t.open_url request timeout ≡ f
      → FailsOnly (IsExplained t) (after_fetch t.loads f)
  fetched_only request timeout (received bytes) same = loaded_only bytes (t.loads bytes) refl
  fetched_only request timeout request_failed same = fails_well (IsExplained t) adapter_error _
  fetched_only request timeout (broke x) same =
      err_only (IsExplained t) x (inr (inr (inl (request, timeout, same))))

  pub run_openai_compatible_inference-raises :
      (model_id user_input endpoint : String) (api_key : Option String) (timeout : Float)
      (e : Exception)
      → run_openai_compatible_inference t model_id user_input endpoint api_key timeout ≡ err e
      → IsExplained t e
  unfolding run_openai_compatible_inference
  run_openai_compatible_inference-raises model_id user_input endpoint api_key timeout =
      let P = IsExplained t in
      then_only P _ _ (raise_if_only P adapter_error _ _) (λ _.
        then_only P _ _ (completion_url_only P adapter_error endpoint) (λ url.
          then_only P _ _ (refuses_only url) (λ _.
            then_only P _ _ (fetched_only _ timeout _ refl)
              (λ response. read_answer_only P adapter_error model_id t.latency_ms response))))
