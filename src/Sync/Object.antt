-- ===== src/Sync/Object.antt =====
-- sync/object.go: the files of a configuration, downloaded to the disk.
pub mod Laws
use mathlib.Core.Option
use baetyl.Base.{
  ℕ, String, ◌<>◌, Bool, true, false, not, ◌&&◌, Option, none, some, List, [], ◌∷◌, ◌==◌, string_eq,
  nat_eq, if◌then◌else◌,
}
use baetyl.Base.Dict
use baetyl.Base.Dict.{Dict}
use baetyl.Base.Range.{Range}
use baetyl.Base.Text.{contains}
use baetyl.Spec.{Configuration}

-- `v1.ConfigurationObject`
pub record ConfigurationObject : Type 0 where
  pub url : String
  pub md5 : String
  pub token : String
  pub unpack : String

pub data Failure : Type 0 where
  no_dir bad_object bad_url no_lock no_response bad_status no_file bad_copy bad_md5 bad_unpack
        not_supported no_upload :
      Failure

pub record Response : Type 0 where
  pub status_code : ℕ
  -- The body, and whether reading it failed on the way.
  pub body : String
  pub broken : Bool

-- The files by their names.
abbrev pub Disk : Type 0
Disk = Dict String String

-- What the code calls: paths, JSON, MD5, HTTP, locks and archives. A request is numbered by its attempt.
pub record Lib : Type 0 where
  pub join : String → String → String
  pub base : String → String
  pub url_path : String → Option String
  pub trim_prefix : String → String
  pub is_config_object : String → Bool
  pub config_type : String
  pub config_helm_tar : String
  pub platform : String
  pub parse_object : String → Option ConfigurationObject
  pub md5 : String → String
  pub lock : String → Bool
  pub get_url : ℕ → String → Option String → Option Response
  pub open_file : String → Bool
  pub mkdir_all : String → Bool
  pub remove_all : String → Disk → Disk
  pub unzip : String → String → Disk → Option Disk
  pub untar : String → String → Disk → Option Disk
  pub untgz : String → String → Disk → Option Disk
  pub upload : Option (String → String → String → String → Bool)

abbrev pub is_program : Configuration → Bool
is_program cfg = elim (Dict.lookup "baetyl-config-type" cfg.labels) [
  | none ↦ false
  | some label ↦ label == "baetyl-program"
]

module _ (lib : Lib) where
  abbrev pub is_helm_tar : Configuration → Bool
  is_helm_tar cfg = elim (Dict.lookup lib.config_type cfg.labels) [
    | none ↦ false
    | some label ↦ label == lib.config_helm_tar
  ]

  -- `FilterConfig`, on one entry: objects of other platforms go.
  unfoldable pub keeps_entry : String × String → Bool
  keeps_entry (k, _) = if not (lib.is_config_object k) then true else contains k lib.platform

  unfoldable pub filter_entries : Dict String String → Dict String String
  unfolding keeps_entry
  filter_entries [] = []
  filter_entries (e ∷ rest) =
      let kept = filter_entries rest in if keeps_entry e then e ∷ kept else kept

  unfoldable pub filter_config : Configuration → Configuration
  unfolding filter_entries
  filter_config cfg =
      if not (is_program cfg) then cfg else record cfg { contents = filter_entries cfg.contents }

  -- The test of the file that is there.
  unfoldable pub is_present : ConfigurationObject → String → Disk → Bool
  is_present obj name disk = elim (Dict.lookup name disk) [
    | none ↦ false
    | some content ↦ if not (obj.md5 == "") then lib.md5 content == obj.md5 else true
  ]

  unfoldable pub unpack_object : String → String → String → Disk → Option Failure × Disk
  unpack_object unpack name dir disk =
      let result : Option Failure × Disk =
        elim (if unpack == "zip"
          then lib.unzip name dir disk
          else if unpack == "tar"
          then lib.untar name dir disk
          else lib.untgz name dir disk) [
            | none ↦ (some bad_unpack, disk)
            | some disk' ↦ (none, disk')
          ] in
      if unpack == ""
      then (none, disk)
      else if unpack == "zip"
      then result
      else if unpack == "tar"
      then result
      else if unpack == "tgz"
      then result
      else (some not_supported, disk)

  -- What is written of the body, and the checks after it.
  unfoldable pub store_body :
      ConfigurationObject → String → String → Response → Disk → Option Failure × Disk
  unfolding unpack_object
  store_body obj dir name res disk =
      if not (lib.open_file name)
      then (some no_file, disk)
      else let disk' = Dict.insert name res.body disk in
        if res.broken
        then (some bad_copy, disk')
        else if not (obj.md5 == "") && not (lib.md5 res.body == obj.md5)
        then (some bad_md5, disk')
        else unpack_object obj.unpack name dir disk'

  abbrev token_of : ConfigurationObject → Option String
  token_of obj = if obj.token == "" then none else some obj.token

  -- One request, and one more when there is no answer.
  unfoldable pub request : ConfigurationObject → Option Response
  request obj = elim (lib.get_url 0 obj.url (token_of obj)) [
    | some res ↦ some res
    | none ↦ lib.get_url 1 obj.url (token_of obj)
  ]

  unfoldable pub download_object :
      ConfigurationObject → String → String → Disk → Option Failure × Disk
  unfolding is_present request store_body
  download_object obj dir name disk =
      if not (lib.lock (name <> ".baetyl-lock"))
      then (some no_lock, disk)
      else if is_present obj name disk
      then (none, disk)
      else elim (request obj) [
        | none ↦ (some no_response, disk)
        | some res ↦
            if not (res.status_code == 200)
            then (some bad_status, disk)
            else store_body obj dir name res disk
      ]

  unfoldable pub file_name : Configuration → String → ConfigurationObject → String → Option String
  file_name cfg dir obj k =
      if is_program cfg
      then elim (lib.url_path obj.url) [ none ↦ none | some p ↦ some (lib.join dir (lib.base p)) ]
      else some (lib.join dir (lib.trim_prefix k))

  unfoldable pub upload_object :
      Configuration → ConfigurationObject → String → String → Option Failure
  upload_object cfg obj dir name = if is_helm_tar cfg then none else elim (lib.upload) [
    | none ↦ none
    | some roam ↦ if roam dir name obj.md5 obj.unpack then none else some no_upload
  ]

  -- The body of the loop of `DownloadConfig`.
  unfoldable pub download_entry :
      String → Configuration → Disk → String × String → Option Failure × Disk
  unfolding download_object file_name upload_object
  download_entry path cfg disk (k, v) =
      let dir = lib.join (lib.join path cfg.name) cfg.version in
      if not (lib.is_config_object k)
      then (none, disk)
      else if not (lib.mkdir_all dir)
      then (some no_dir, disk)
      else elim (lib.parse_object v) [
        | none ↦ (some bad_object, disk)
        | some obj ↦ elim (file_name cfg dir obj k) [
          | none ↦ (some bad_url, disk)
          | some name ↦
              let (failed, disk') = download_object obj dir name disk in
              elim failed [
                | some e ↦ (some e, lib.remove_all dir disk')
                | none ↦ (upload_object cfg obj dir name, disk')
              ]
        ]
      ]

  unfoldable pub download_entries :
      String → Configuration → List (String × String) → Disk → Option Failure × Disk
  unfolding download_entry
  download_entries path cfg [] disk = (none, disk)
  download_entries path cfg (e ∷ rest) disk =
      let (failed, disk') = download_entry path cfg disk e in
      let others = download_entries path cfg rest disk' in
      elim failed [ some e ↦ (some e, disk') | none ↦ others ]

  unfoldable pub download_config : Range → String → Configuration → Disk → Option Failure × Disk
  unfolding download_entries
  download_config range path cfg disk =
      download_entries path cfg (range.order (String × String) cfg.contents) disk
