-- ===== src/Programs/Upload/Posted.antt =====
-- The form of a request with one file, and what `upload_file` and the storage make of it.
use distributed_storage.Base.{
  ℕ, suc, ◌+◌, ◌-◌, ◌<◌, ◌≡◌, ap, some, [], ◌∷◌, ◌++◌, arith, length, drop, append_assoc,
  length-append, length-drop, pos, true,
}
use distributed_storage.Clib.Chars.{int_max}
use distributed_storage.Clib.Copy.{length-zeros}
use distributed_storage.Clib.Decimal.{IsDecimal, number}
use distributed_storage.Clib.Exec.{done}
use distributed_storage.Clib.First.{Absent}
use distributed_storage.Clib.Strings.{Bytes, codes, zeros, padded}
use distributed_storage.FileInfo.{FileInfo}
use distributed_storage.Programs.DataCgi.Sizes.{length-get_parameter}
use distributed_storage.Programs.Upload.{Request}
use distributed_storage.Programs.Upload.Stored.{Named}
use distributed_storage.Usefull.Query.{get_usr}
use distributed_storage.Usefull.Storage.{fdfs_client}
use distributed_storage.Usefull.Storage.Answers.{Answers}
use distributed_storage.Usefull.Storage.Client.{fdfs_client-id, left_behind}
use distributed_storage.Usefull.System.{System}
use distributed_storage.Usefull.Upload.{dashes, upload_file}
use distributed_storage.Usefull.Upload.Form.{body, content, before, named, upload_file-body}
use distributed_storage.Usefull.Upload.Lines.{IsLine, line}

-- The form as the browser sends it: the lines in front of the file's bytes, the bytes, and the closing
-- boundary. The environment tells its length, the file can be opened, and there is memory for the value.
pub record Posted (req : Request) (info : FileInfo) (bytes : Bytes) : Type 0 where
  pub boundary : Bytes
  pub disposition : Bytes
  pub kind_of : Bytes
  pub rest : Bytes
  pub boundary_line : IsLine boundary
  pub disposition_line : IsLine disposition
  pub name_line : IsLine info.filename
  pub kind_line : IsLine kind_of
  pub form : Bytes
  pub is_form :
      form
      ≡ body boundary disposition info.filename kind_of bytes rest boundary_line disposition_line
          name_line kind_line
  pub no_dashes :
      Absent dashes
        (content boundary disposition info.filename kind_of bytes
          (rest ++ 0 ∷ [])
          boundary_line
          disposition_line
          name_line
          kind_line)
        (length bytes + 2)
  pub no_name :
      Absent
        (codes "filename=")
        (before boundary disposition info.filename kind_of bytes
            (rest ++ 0 ∷ [])
            boundary_line
            disposition_line
            name_line
            kind_line
          ++ (codes "filename=\""
              ++ named boundary disposition info.filename kind_of bytes
                  (rest ++ 0 ∷ [])
                  boundary_line
                  disposition_line
                  name_line
                  kind_line))
        (length (
          before boundary disposition info.filename kind_of bytes
            (rest ++ 0 ∷ [])
            boundary_line
            disposition_line
            name_line
            kind_line))
  pub name_fits : length info.filename < 256
  pub digits : Bytes
  pub behind_digits : Bytes
  pub are_digits : IsDecimal digits
  pub is_length : number digits 0 ≡ length form
  pub small : length form < int_max
  pub told_length : req.content_length ≡ some (digits ++ 0 ∷ behind_digits)
  pub more : Bytes
  pub is_input : req.input ≡ form ++ more
  pub usr : Bytes
  pub is_usr : get_usr req.query_string (zeros 64) ≡ done (pos 0, usr)
  pub opens : req.can_open ≡ true
  pub block : Bytes
  pub is_memory : req.memory ≡ some block
  pub is_block : length block ≡ 1024

pub fdfs_client-Named :
    {W : Type 0} (S : System W) (name id out : Bytes) (w w' : W)
    → Named id out
    → Answers S w out w'
    → fdfs_client S name (zeros 256) w ≡ done ((pos 0, id ++ 0 ∷ left_behind S id out), w')
fdfs_client-Named S name id out w w' is run =
    let sent =
      fdfs_client-id S is.before is.front is.last is.behind name w w' is.is_spaced
        (rw is.is_out at run) (rw is.is_out at is.short) in
    rw (is.is_id, is.is_out) (rw is.free at sent)

pub length-Named :
    {W : Type 0} (S : System W) (id out : Bytes)
    → Named id out
    → length (id ++ 0 ∷ left_behind S id out) ≡ 256
length-Named S id out is =
    let n = length id in
    let zs = zeros (256 - length out - 1) in
    omega (
      arith,
      is.short,
      ap length is.is_id,
      ap length is.is_out,
      length-append is.front (is.last ∷ []),
      length-append is.front (is.last ∷ is.behind),
      length-append is.before (is.front ++ is.last ∷ is.behind),
      length-append id (0 ∷ left_behind S id out),
      length-drop (suc n) (out ++ 0 ∷ zs),
      length-append out (0 ∷ zs),
      length-zeros (256 - length out - 1),
    )

pub length-array :
    (t : Bytes) (n : ℕ) → length t < n → length (t ++ 0 ∷ drop (suc (length t)) (zeros n)) ≡ n
length-array t n lt = omega (
  arith,
  length-append t (0 ∷ drop (suc (length t)) (zeros n)),
  length-drop (suc (length t)) (zeros n),
  length-zeros n,
)

pub length-padded : (n : ℕ) (t : Bytes) → length t < n → length (padded n t) ≡ n
length-padded n t lt =
    omega (arith, length-append t (zeros (n - length t)), length-zeros (n - length t))

pub length-usr :
    (req : Request) (usr : Bytes)
    → get_usr req.query_string (zeros 64) ≡ done (pos 0, usr)
    → length usr ≡ 64
unfolding get_usr
length-usr req usr e = length-get_parameter (codes "user") req.query_string (zeros 64) usr (pos 0) e

pub upload_file-Posted :
    (req : Request) (info : FileInfo) (bytes : Bytes) (sent : Posted req info bytes)
    → upload_file (sent.form ++ 0 ∷ []) (length sent.form) (zeros 256) req.can_open
      ≡ done (
        pos 0,
        info.filename ++ 0 ∷ drop (suc (length info.filename)) (zeros 256),
        some (info.filename, bytes),
      )
upload_file-Posted req info bytes sent =
    let whole : sent.form ++ 0 ∷ []
        ≡ body sent.boundary sent.disposition info.filename sent.kind_of bytes (sent.rest ++ 0 ∷ [])
            sent.boundary_line sent.disposition_line sent.name_line sent.kind_line =
      rw sent.is_form (simp append_assoc) in
    let size : length sent.form + 1 ≡ length (sent.form ++ 0 ∷ []) =
      omega (arith, length-append sent.form (0 ∷ [])) in
    rw (whole, sent.opens)
      (upload_file-body sent.boundary sent.disposition info.filename sent.kind_of bytes
        (sent.rest ++ 0 ∷ []) sent.boundary_line sent.disposition_line sent.name_line sent.kind_line
        (length sent.form) (omega (arith, size, ap length whole))
        (omega (arith, size, ap length whole, length-append sent.rest (0 ∷ []))) sent.no_dashes
        (zeros 256) true sent.name_fits sent.no_name)

pub form-positive :
    (req : Request) (info : FileInfo) (bytes : Bytes) (sent : Posted req info bytes)
    → 0 < length sent.form
form-positive req info bytes sent = omega (
  arith,
  ap length sent.is_form,
  length-append sent.boundary (
      13
      ∷ 10
      ∷ (line (sent.disposition ++ (codes "filename=\"" ++ (info.filename ++ b'"' ∷ [])))
          (line sent.kind_of (line [] (bytes ++ (13 ∷ 10 ∷ (dashes ++ sent.rest))))))),
)
