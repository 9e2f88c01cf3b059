-- ===== src/Wiring/Celestia.antt =====
-- main.go: the commands of `nonodo celestia` that submit a payload. Downloads, files, the environment and
-- the node are outside; the state is what has been submitted to the node, the latest first.
use cartesi_rollups_hl_graph.Base.{
  ℕ, zero, suc, bind, ◌||◌, ltb, List, [], ◌∷◌, Text, codes, length, Result, ok, err, bad_request,
  not_found, Exec, ◌>>=◌, ◌>>◌, pure, raise, lift, if◌then◌else◌,
}
use cartesi_rollups_hl_graph.Wiring.{is_empty}

-- The fields that these commands read.
pub record CelestiaOpts : Type 0 where
  pub payload : Text
  pub payload_path : Text
  pub payload_url : Text
  pub namespace : Text

-- What SubmitBlob is called with.
pub record Blob : Type 0 where
  pub url : Text
  pub token : Text
  pub namespace : Text
  pub payload : Text

-- An open file: its size, and the bytes that a read into a buffer of some length yields.
pub record File : Type 0 where
  pub size : Result ℕ
  pub read : ℕ → Result Text

-- `answer` is what the client's request yields: the body, or rather what reading it to the end yields.
pub record Outside : Type 0 where
  pub open_file : Text → Result File
  pub new_request : Text → Result (Unit {0})
  pub answer : Text → Result (Result Text)
  pub getenv : Text → Text
  pub submit_blob : Blob → Result (ℕ × ℕ × ℕ)

abbrev pub max_file_size : ℕ
max_file_size = 1440000

unfoldable pub check_if_valid_size : ℕ → Exec (List Blob) (Unit {0})
check_if_valid_size size = if ltb max_file_size size then raise bad_request else pure tt

-- A command starts with the options that no flag has set.
abbrev pub no_opts : CelestiaOpts
no_opts = record { payload = []; payload_path = []; payload_url = []; namespace = [] }

abbrev filled : ℕ → Text → Text
filled zero bytes = []
filled (suc n) [] = 0 ∷ filled n []
filled (suc n) (b ∷ bytes) = b ∷ filled n bytes

-- The place of the blob is only logged.
abbrev done : {A : Type 0} → Result A → Result (Unit {0})
done (ok a) = ok tt
done (err e) = err e

module _ (w : Outside) where
  -- The buffer keeps its zeros behind what was read.
  unfoldable pub read_file : Text → Result Text
  read_file path =
      bind (w.open_file path)
        λ file. bind file.size λ size. bind (file.read size) λ bytes. ok (filled size bytes)

  unfoldable pub download_file : Text → Result Text
  download_file url = bind (w.new_request url) λ u. bind (w.answer url) λ body. body

  unfoldable pub get_token_from_tia : Exec (List Blob) (Text × Text)
  get_token_from_tia =
      let token : Text = w.getenv (codes "TIA_AUTH_TOKEN") in
      let url : Text = w.getenv (codes "TIA_URL") in
      if is_empty token || is_empty url then raise not_found else pure (token, url)

  abbrev submit : Blob → Exec (List Blob) (Unit {0})
  submit blob calls = (done (w.submit_blob blob), blob ∷ calls)

  -- The token, then the payload of the options.
  unfoldable pub send : CelestiaOpts → Exec (List Blob) (Unit {0})
  unfolding get_token_from_tia
  send c = get_token_from_tia >>= λ (token, url).
      submit (record { url = url; token = token; namespace = c.namespace; payload = c.payload })

  unfoldable pub send_content : CelestiaOpts → Text → Exec (List Blob) (Unit {0})
  unfolding check_if_valid_size send
  send_content c content = check_if_valid_size (length content) >> send c

  unfoldable pub send_file : CelestiaOpts → Exec (List Blob) (Unit {0})
  unfolding send_content
  send_file c = lift (read_file c.payload_path) >>= send_content c

  unfoldable pub send_file_url : CelestiaOpts → Exec (List Blob) (Unit {0})
  unfolding send_content
  send_file_url c = lift (download_file c.payload_url) >>= send_content c

  -- What has been submitted for a content.
  abbrev pub submission : Text → CelestiaOpts → List Blob
  submission content c =
      if ltb max_file_size (length content)
      then []
      else if is_empty (w.getenv (codes "TIA_AUTH_TOKEN")) || is_empty (w.getenv (codes "TIA_URL"))
      then []
      else record {
        url = w.getenv (codes "TIA_URL");
        token = w.getenv (codes "TIA_AUTH_TOKEN");
        namespace = c.namespace;
        payload = [];
      }
        ∷ []
