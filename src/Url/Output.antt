-- ===== src/Url/Output.antt =====
-- `tai_url_json` of src/url.c: the bytes that it writes.
use tai_ci.Base.{◌++◌, [], ◌∷◌, some, Bytes, String, codes, if◌then◌else◌}
use tai_ci.Json.{tai_json_string}
use tai_ci.Url.{Url}

abbrev json_field : String → Bytes → Bytes
json_field name text = tai_json_string (some (codes name)) ++ 58 ∷ tai_json_string (some text)

unfoldable pub tai_url_json : Url → Bytes
tai_url_json u =
    123
    ∷ (json_field "scheme" u.scheme
        ++ 44
          ∷ (json_field "host" u.host
              ++ 44
                ∷ (json_field "path" u.path
                    ++ 44
                      ∷ (json_field "fragment" u.fragment
                          ++ 44
                            ∷ (json_field "url_string" u.key
                                ++ 44
                                  ∷ (json_field "serialized" u.serialized
                                      ++ 44
                                        ∷ (json_field "origin" u.origin
                                            ++ (codes ",\"port\":"
                                                ++ (u.port_text
                                                    ++ (codes ",\"view_source\":"
                                                        ++ ((if u.view_source
                                                            then codes "true"
                                                            else codes "false")
                                                            ++ 125 ∷ [])))))))))))
