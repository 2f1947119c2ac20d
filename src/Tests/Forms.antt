-- ===== src/Tests/Forms.antt =====
-- A form with one file.
use distributed_storage.Base.{refl, true, some, [], ◌∷◌, ◌++◌, arith}
use distributed_storage.Clib.Chars.{isspace}
use distributed_storage.Clib.First.{is_absent, is_absent-Absent}
use distributed_storage.Clib.Strings.{
  Bytes, codes, zeros, starts_with, strlen, tail_at, get_at, put_prefix, strncpy, set_at,
}
use distributed_storage.FileInfo.{FileInfo, IsStored}
use distributed_storage.Programs.Upload.{Request}
use distributed_storage.Programs.Upload.Posted.{Posted}
use distributed_storage.RoundTrip.{Upload}
use distributed_storage.Usefull.Query.{get_usr}
use distributed_storage.Usefull.Query.Parameter.{get_parameter-value}
use distributed_storage.Usefull.Suffix.Spec.{suffix_of, after_dot, or_null}
use distributed_storage.Usefull.TrimSpace.{trim_space, skip_space, retreat, may_copy}

abbrev pub uploaded : FileInfo
uploaded = record {
  file_id = codes "group1/M";
  url = codes "http://1.2/group1/M";
  filename = codes "a.jpg";
  create_time = codes "9:30";
  user = codes "user";
  kind = codes "jpg";
}

uploaded-IsStored : IsStored uploaded
uploaded-IsStored = record {
  fields = (omega arith, (omega arith, (omega arith, (omega arith, (omega arith, tt)))));
  kind_clean = omega arith;
  url_ne_nil = λ e. cc;
  filename_ne_nil = λ e. cc;
  create_time_ne_nil = λ e. cc;
}

abbrev pub time_array : Bytes
time_array = codes "9:30 " ++ 0 ∷ 0 ∷ []

pub uploaded-Upload : Upload uploaded time_array (0 ∷ 0 ∷ []) 1024
uploaded-Upload = record {
  is_stored = uploaded-IsStored;
  is_kind = unfold suffix_of after_dot or_null in refl;
  trimmed =
      unfold trim_space skip_space retreat may_copy isspace strlen tail_at get_at put_prefix strncpy
        set_at in
      refl;
  short = omega arith;
  fits = omega arith;
}

abbrev form : Bytes
form = codes "--x\r\nd; filename=\"a.jpg\"\r\nT\r\n\r\n" ++ 1 ∷ 0 ∷ codes "\r\n---------x"

abbrev pub request : Request
request = record {
  content_length = some (codes "45" ++ 0 ∷ []);
  query_string = some (codes "user=me" ++ 0 ∷ []);
  input = form ++ codes "\r\n";
  can_open = true;
  memory = some (zeros 1024);
  create_time = time_array;
}

unfoldable pub request-Posted : Posted request uploaded (1 ∷ 0 ∷ [])
unfolding is_absent starts_with get_usr
request-Posted = record {
  boundary = codes "--x";
  disposition = codes "d; ";
  kind_of = codes "T";
  rest = codes "x";
  boundary_line = omega arith;
  disposition_line = omega arith;
  name_line = omega arith;
  kind_line = omega arith;
  form = form;
  is_form = refl;
  no_dashes =
      is_absent-Absent (codes "---------") (1 ∷ 0 ∷ codes "\r\n---------x" ++ 0 ∷ []) 4 refl;
  no_name = is_absent-Absent (codes "filename=") (form ++ 0 ∷ []) 8 refl;
  name_fits = omega arith;
  digits = codes "45";
  behind_digits = [];
  are_digits = omega arith;
  is_length = refl;
  small = omega arith;
  told_length = refl;
  more = codes "\r\n";
  is_input = refl;
  usr = codes "me" ++ 0 ∷ zeros 61;
  is_usr =
      get_parameter-value [] b'u' (codes "ser") b'=' (codes "me") 0 [] (zeros 64) tt
        (λ j lt. absurd (omega arith)) (refl, (refl, tt)) refl (omega arith);
  opens = refl;
  block = zeros 1024;
  is_memory = refl;
  is_block = refl;
}
