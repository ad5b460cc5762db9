-- ===== src/Mail/Mime.antt =====
-- mailsender.cpp: the parts of a mail, which `addMimeBody` and `addMimeAttachment` append. The text of
-- `data.append( line + "\n" )` is `line`; what is random, the clock, the host's name and the files are
-- `Letterhead`.
use rssani.Base.{
  ℕ, Bool, true, false, Option, none, some, [], ◌∷◌, ◌++◌, if◌then◌else◌, QString, codes, QHash,
  lookup,
}
use rssani.Mail.{Mailer, ContentType, text_content, html_content}

-- The two random hashes as text, the host's name, the date and the time, and of a file by its path:
-- its data in Base64 (if it opens), its name and its suffix.
pub record Letterhead : Type 0 where
  pub id_hash : QString
  pub boundary_hash : QString
  pub local_host : QString
  pub day : QString
  pub month : ℕ
  pub year : QString
  pub time : QString
  pub base64_of : QString → Option QString
  pub file_name : QString → QString
  pub suffix : QString → QString

-- A line and its end.
abbrev pub line : QString → QString
line t = t ++ (10 ∷ [])

abbrev pub crlf : QString
crlf = codes "\r\n"

unfoldable pub content_type_name : ContentType → QString
content_type_name html_content = codes "text/html"
content_type_name text_content = codes "text/plain"

-- The branches of `getMimeType`, in order.
mime_types : QHash QString
mime_types =
    (codes "txt", codes "text/plain")
    ∷ (codes "htm", codes "text/html")
    ∷ (codes "html", codes "text/html")
    ∷ (codes "css", codes "text/css")
    ∷ (codes "png", codes "image/png")
    ∷ (codes "gif", codes "image/gif")
    ∷ (codes "jpg", codes "image/jpeg")
    ∷ (codes "jpeg", codes "image/jpeg")
    ∷ (codes "bmp", codes "image/bmp")
    ∷ (codes "tif", codes "image/tiff")
    ∷ (codes "bz2", codes "application/x-bzip")
    ∷ (codes "gz", codes "application/x-gzip")
    ∷ (codes "tar", codes "application/x-tar")
    ∷ (codes "zip", codes "application/zip")
    ∷ (codes "aif", codes "audio/aiff")
    ∷ (codes "aiff", codes "audio/aiff")
    ∷ (codes "mid", codes "audio/mid")
    ∷ (codes "midi", codes "audio/mid")
    ∷ (codes "mp3", codes "audio/mpeg")
    ∷ (codes "ogg", codes "audio/ogg")
    ∷ (codes "wav", codes "audio/wav")
    ∷ (codes "wma", codes "audio/x-ms-wma")
    ∷ (codes "asf", codes "video/x-ms-asf")
    ∷ (codes "asx", codes "video/x-ms-asf")
    ∷ (codes "avi", codes "video/avi")
    ∷ (codes "mpg", codes "video/mpeg")
    ∷ (codes "mpeg", codes "video/mpeg")
    ∷ (codes "wmv", codes "video/x-ms-wmv")
    ∷ (codes "wmx", codes "video/x-ms-wmx")
    ∷ (codes "xml", codes "text/xml")
    ∷ (codes "xsl", codes "text/xsl")
    ∷ (codes "doc", codes "application/msword")
    ∷ (codes "rtf", codes "application/msword")
    ∷ (codes "xls", codes "application/excel")
    ∷ (codes "ppt", codes "application/vnd.ms-powerpoint")
    ∷ (codes "pps", codes "application/vnd.ms-powerpoint")
    ∷ (codes "pdf", codes "application/pdf")
    ∷ (codes "ai", codes "application/postscript")
    ∷ (codes "eps", codes "application/postscript")
    ∷ (codes "psd", codes "image/psd")
    ∷ (codes "swf", codes "application/x-shockwave-flash")
    ∷ (codes "ra", codes "audio/vnd.rn-realaudio")
    ∷ (codes "ram", codes "audio/x-pn-realaudio")
    ∷ (codes "rm", codes "application/vnd.rn-realmedia")
    ∷ (codes "rv", codes "video/vnd.rn-realvideo")
    ∷ (codes "exe", codes "application/x-msdownload")
    ∷ (codes "pls", codes "audio/scpls")
    ∷ (codes "m3u", codes "audio/x-mpegurl")
    ∷ []

pub get_mime_type : QString → QString
get_mime_type ext = elim (lookup ext mime_types) [ none ↦ codes "text/plain" | some t ↦ t ]

-- `addMimeAttachment`, the text that it appends.
pub add_mime_attachment : Letterhead → QString → QString
add_mime_attachment w path = elim (w.base64_of path) [
  | none ↦ codes "Error attaching file: " ++ (path ++ crlf)
  | some encoded ↦
      codes "Content-Type: "
      ++ (get_mime_type (w.suffix path)
          ++ (line (codes ";")
              ++ (codes "  name="
                  ++ (line (w.file_name path)
                      ++ (line (codes "Content-Transfer-Encoding: base64")
                          ++ (line (codes "Content-Disposition: attachment")
                              ++ (codes "  filename="
                                  ++ (line (line (w.file_name path))
                                      ++ (encoded ++ line crlf)))))))))
]

pub html_head : Mailer → QString
html_head m =
    codes "<!DOCTYPE HTML PUBLIC \"-//W3C//DTD HTML 4.0 Transitional//EN\">\r\n"
    ++ (codes "<HTML><HEAD>\r\n"
        ++ (codes "<META HTTP-EQUIV=\"CONTENT-TYPE\" CONTENT=\"text/html; charset="
            ++ (m.charset
                ++ (codes "\">\r\n"
                    ++ (codes "<META content=\"MSHTML 6.00.2900.2802\" name=GENERATOR>\r\n"
                        ++ (codes "<STYLE></STYLE>\r\n"
                            ++ (codes "</head>\r\n" ++ codes "<body bgColor=#ffffff>\r\n")))))))

abbrev is_html : Mailer → Bool
is_html m = elim m.content_type [ html_content ↦ true | text_content ↦ false ]

-- `addMimeBody`: what stands in front of the body, and behind it.
unfoldable pub body_front : Mailer → QString
body_front m =
    codes "Content-Type: "
    ++ (content_type_name m.content_type
        ++ (line (codes ";")
            ++ (codes "  charset="
                ++ (m.charset
                    ++ (crlf
                        ++ (codes "Content-Transfer-Encoding: "
                            ++ (m.encoding
                                ++ (crlf
                                    ++ (line crlf
                                        ++ (if is_html m then html_head m else []))))))))))

pub body_back : Mailer → QString
body_back m = crlf ++ (if is_html m then codes "<DIV>&nbsp;</DIV></body></html>\r\n\n" else [])

unfoldable pub add_mime_body : Mailer → QString
add_mime_body m = body_front m ++ (m.body ++ body_back m)
