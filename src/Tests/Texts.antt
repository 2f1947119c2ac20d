-- ===== src/Tests/Texts.antt =====
-- Texts: src/usefull.c and the texts of src/data_use.c.
use distributed_storage.Base.{◌≡◌, refl, none, some, [], ◌∷◌, ◌++◌, pos, true, arith}
use distributed_storage.Clib.Chars.{isspace}
use distributed_storage.Clib.Exec.{done, fault}
use distributed_storage.Clib.Strings.{codes, zeros, padded, starts_with}
use distributed_storage.DataUse.IpUrl.{get_ip_url}
use distributed_storage.DataUse.IpUrl.Prefix.{get_ip_url_bounds, group}
use distributed_storage.DataUse.Replace.{str_replace}
use distributed_storage.DataUse.Replace.Ending.{str_replace-Ended}
use distributed_storage.DataUse.Replace.Faults.{str_replace-Absent}
use distributed_storage.DataUse.Replace.Garbage.{str_replace_garbage}
use distributed_storage.DataUse.Replace.Replaces.{str_replace-joined}
use distributed_storage.Clib.First.{is_absent, is_absent-Absent}
use distributed_storage.Usefull.Memstr.{memstr}
use distributed_storage.Usefull.Memstr.Find.{find, memstr-find}
use distributed_storage.Usefull.Query.{get_query_string}
use distributed_storage.Usefull.Query.Value.{get_query_string_bounds}
use distributed_storage.Usefull.Upload.{dashes, upload_file}
use distributed_storage.Usefull.Upload.Form.{upload_file-body}
use distributed_storage.Usefull.Suffix.{get_file_suffix}
use distributed_storage.Usefull.Suffix.Spec.{get_file_suffix_bounds, suffix_of, after_dot, or_null}
use distributed_storage.Usefull.TrimSpace.{may_copy, trim_space}
use distributed_storage.Usefull.TrimSpace.Trims.{trim_space-spaced}

str_replace-joined_example :
    str_replace
      (some (codes "a%20b%20c" ++ 0 ∷ 7 ∷ []))
      (some (codes "%20"))
      (some (codes " "))
      (some (zeros 9))
    ≡ done (some (pos 0, some (padded 9 (codes "a b c") ++ 0 ∷ 7 ∷ [])))
str_replace-joined_example =
    str_replace-joined b'%' (codes "20") (codes " ") (codes "a" ∷ codes "b" ∷ []) (codes "c")
      (7 ∷ []) (omega arith) (omega arith) (omega arith) (omega arith) (omega arith)

str_replace-Absent_example :
    str_replace (some (codes "ab" ++ 0 ∷ [])) (some (codes "x")) (some (codes "y")) (some (zeros 2))
    ≡ fault
str_replace-Absent_example =
    str_replace-Absent b'a' (codes "b") [] (codes "x") (codes "y") (zeros 2) (omega arith) refl
      (is_absent-Absent (codes "x") (codes "ab" ++ 0 ∷ []) 3 (unfold is_absent starts_with in refl))

str_replace_garbage_example :
    str_replace
      (some (codes "axb" ++ 0 ∷ []))
      (some (codes "x"))
      (some (codes "y"))
      (some (1 ∷ 2 ∷ 3 ∷ []))
    ≡ fault
str_replace_garbage_example =
    str_replace_garbage (codes "a") b'x' [] (codes "b") [] (codes "y") (1 ∷ 2 ∷ 3 ∷ [])
      (omega arith) (omega arith) (omega arith) refl
      (is_absent-Absent (codes "x") (codes "axb" ++ 0 ∷ []) 1
        (unfold is_absent starts_with in refl))

get_file_suffix_bounds_example :
    get_file_suffix (some (codes "a.tar.gz" ++ 0 ∷ [])) (some (codes "12345678"))
    ≡ done (pos 0, some (codes "tar.gz" ++ 0 ∷ codes "8"))
unfolding suffix_of after_dot or_null
get_file_suffix_bounds_example =
    get_file_suffix_bounds (codes "a.tar.gz") [] (codes "12345678") (omega arith)

get_query_string_bounds_example :
    get_query_string (some (codes "cmd=new&user=me" ++ 0 ∷ [])) (codes "cmd") (codes "12345") true
    ≡ done (pos 0, codes "new" ++ 0 ∷ codes "5", some 3)
get_query_string_bounds_example =
    get_query_string_bounds [] b'c' (codes "md") b'=' (codes "new") b'&' (codes "user=me" ++ 0 ∷ [])
      (codes "12345") true tt (λ j h. absurd (omega arith)) (refl, (refl, (refl, tt))) refl

-- The bytes hold a 0 in front of the text; the second search ends before it.
memstr-find_example :
    memstr (some (0 ∷ codes "xaby")) (pos 5) (some (codes "ab"))
    ≡ done (find (codes "ab") (0 ∷ codes "xaby"))
memstr-find_example = memstr-find b'a' (codes "b") (0 ∷ codes "xaby") 5 (omega arith)

find-runs : find (codes "ab") (0 ∷ codes "xaby") ≡ some 2
find-runs = unfold find starts_with in refl

str_replace-Ended_example : ¬ (
    str_replace
      (some (codes "a%2Fb" ++ 0 ∷ []))
      (some (codes "%2F"))
      (some (codes "/"))
      (some (zeros 5))
    ≡ done none)
str_replace-Ended_example =
    str_replace-Ended (some (codes "a%2Fb" ++ 0 ∷ [])) (some (codes "/")) (some (zeros 5)) b'%'
      (codes "2F") (omega arith)

trim_space-spaced_example :
    trim_space (codes "   a b " ++ 0 ∷ []) ≡ done (pos 0, codes "a b" ++ 0 ∷ codes " b " ++ 0 ∷ [])
unfolding isspace may_copy
trim_space-spaced_example =
    trim_space-spaced (codes "   ") (codes "a ") b'b' (codes " ") [] (refl, (refl, (refl, tt)))
      (refl, tt) (omega arith) refl refl (omega arith)

get_ip_url_bounds_example :
    get_ip_url (some (codes "h:80/group1/M" ++ 0 ∷ [])) (some (codes "12345678"))
    ≡ done (pos 0, some (codes "h:80" ++ 0 ∷ codes "678"))
get_ip_url_bounds_example =
    get_ip_url_bounds (codes "h:80") (codes "1/M" ++ 0 ∷ []) (codes "12345678") (omega arith) (
      is_absent-Absent group (codes "h:80/group1/M" ++ 0 ∷ []) 4
        (unfold is_absent starts_with in refl))

upload_file-body_example :
    upload_file
      (codes "--x\r\nd; filename=\"a.b\"\r\nT\r\n\r\n" ++ 1 ∷ 0 ∷ codes "\r\n---------x")
      43
      (zeros 8)
      true
    ≡ done (pos 0, codes "a.b" ++ 0 ∷ zeros 4, some (codes "a.b", 1 ∷ 0 ∷ []))
upload_file-body_example =
    upload_file-body (codes "--x") (codes "d; ") (codes "a.b") (codes "T") (1 ∷ 0 ∷ []) (codes "x")
      (omega arith) (omega arith) (omega arith) (omega arith) 43 (omega arith) (omega arith)
      (is_absent-Absent dashes (1 ∷ 0 ∷ codes "\r\n---------x") 4
        (unfold is_absent starts_with in refl))
      (zeros 8) true (omega arith)
      (is_absent-Absent (codes "filename=")
        (codes "--x\r\nd; filename=\"a.b\"\r\nT\r\n\r\n" ++ 1 ∷ 0 ∷ codes "\r\n---------x") 8
        (unfold is_absent starts_with in refl))
