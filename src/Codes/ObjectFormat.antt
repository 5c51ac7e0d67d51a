-- ===== src/Codes/ObjectFormat.antt =====
-- mtp/ptp/ObjectFormat.values.h: the enumerators of `ObjectFormat`, each with its 16-bit value.
use Prim.Native.String.{String}
use zune_sync.Base.{ℕ, List, [], ◌∷◌}

abbrev pub any : ℕ
any = 0x0000

abbrev pub undefined : ℕ
undefined = 0x3000

abbrev pub association : ℕ
association = 0x3001

abbrev pub script : ℕ
script = 0x3002

abbrev pub executable : ℕ
executable = 0x3003

abbrev pub text : ℕ
text = 0x3004

abbrev pub html : ℕ
html = 0x3005

abbrev pub dpof : ℕ
dpof = 0x3006

abbrev pub aiff : ℕ
aiff = 0x3007

abbrev pub wav : ℕ
wav = 0x3008

abbrev pub mp3 : ℕ
mp3 = 0x3009

abbrev pub avi : ℕ
avi = 0x300a

abbrev pub mpeg : ℕ
mpeg = 0x300b

abbrev pub asf : ℕ
asf = 0x300c

abbrev pub undefined_image : ℕ
undefined_image = 0x3800

abbrev pub exif_jpeg : ℕ
exif_jpeg = 0x3801

abbrev pub tiff_ep : ℕ
tiff_ep = 0x3802

abbrev pub flashpix : ℕ
flashpix = 0x3803

abbrev pub bmp : ℕ
bmp = 0x3804

abbrev pub ciff : ℕ
ciff = 0x3805

abbrev pub gif : ℕ
gif = 0x3807

abbrev pub jfif : ℕ
jfif = 0x3808

abbrev pub pcd : ℕ
pcd = 0x3809

abbrev pub pict : ℕ
pict = 0x380a

abbrev pub png : ℕ
png = 0x380b

abbrev pub tiff : ℕ
tiff = 0x380d

abbrev pub tiff_it : ℕ
tiff_it = 0x380e

abbrev pub jp2 : ℕ
jp2 = 0x380f

abbrev pub jpx : ℕ
jpx = 0x3810

abbrev pub dng : ℕ
dng = 0x3811

abbrev pub heif : ℕ
heif = 0x3812

abbrev pub network_association : ℕ
network_association = 0xb102

abbrev pub m4a : ℕ
m4a = 0xb215

abbrev pub artist : ℕ
artist = 0xb218

abbrev pub undefined_firmware : ℕ
undefined_firmware = 0xb802

abbrev pub windows_image_format : ℕ
windows_image_format = 0xb881

abbrev pub undefined_audio : ℕ
undefined_audio = 0xb900

abbrev pub wma : ℕ
wma = 0xb901

abbrev pub ogg : ℕ
ogg = 0xb902

abbrev pub aac : ℕ
aac = 0xb903

abbrev pub audible : ℕ
audible = 0xb904

abbrev pub flac : ℕ
flac = 0xb906

abbrev pub undefined_video : ℕ
undefined_video = 0xb980

abbrev pub wmv : ℕ
wmv = 0xb981

abbrev pub mp4 : ℕ
mp4 = 0xb982

abbrev pub mp2 : ℕ
mp2 = 0xb983

abbrev pub video_3gp : ℕ
video_3gp = 0xb984

abbrev pub undefined_collection : ℕ
undefined_collection = 0xba00

abbrev pub abstract_multimedia_album : ℕ
abstract_multimedia_album = 0xba01

abbrev pub abstract_image_album : ℕ
abstract_image_album = 0xba02

abbrev pub abstract_audio_album : ℕ
abstract_audio_album = 0xba03

abbrev pub abstract_video_album : ℕ
abstract_video_album = 0xba04

abbrev pub abstract_av_playlist : ℕ
abstract_av_playlist = 0xba05

abbrev pub abstract_contact_group : ℕ
abstract_contact_group = 0xba06

abbrev pub abstract_message_folder : ℕ
abstract_message_folder = 0xba07

abbrev pub abstract_chaptered_production : ℕ
abstract_chaptered_production = 0xba08

abbrev pub abstract_audio_playlist : ℕ
abstract_audio_playlist = 0xba09

abbrev pub abstract_video_playlist : ℕ
abstract_video_playlist = 0xba0a

abbrev pub abstract_mediacast : ℕ
abstract_mediacast = 0xba0b

abbrev pub wpl_playlist : ℕ
wpl_playlist = 0xba10

abbrev pub m3u_playlist : ℕ
m3u_playlist = 0xba11

abbrev pub mpl_playlist : ℕ
mpl_playlist = 0xba12

abbrev pub asx_playlist : ℕ
asx_playlist = 0xba13

abbrev pub pls_playlist : ℕ
pls_playlist = 0xba14

abbrev pub undefined_document : ℕ
undefined_document = 0xba80

abbrev pub abstract_document : ℕ
abstract_document = 0xba81

abbrev pub xml_document : ℕ
xml_document = 0xba82

abbrev pub microsoft_word_document : ℕ
microsoft_word_document = 0xba83

abbrev pub mht_compiled_html_document : ℕ
mht_compiled_html_document = 0xba84

abbrev pub microsoft_excel_spreadsheet : ℕ
microsoft_excel_spreadsheet = 0xba85

abbrev pub microsoft_power_point_presentation : ℕ
microsoft_power_point_presentation = 0xba86

abbrev pub undefined_message : ℕ
undefined_message = 0xbb00

abbrev pub abstract_message : ℕ
abstract_message = 0xbb01

abbrev pub undefined_contact : ℕ
undefined_contact = 0xbb80

abbrev pub abstract_contact : ℕ
abstract_contact = 0xbb81

abbrev pub v_card2 : ℕ
v_card2 = 0xbb82

abbrev pub v_card3 : ℕ
v_card3 = 0xbb83

abbrev pub undefined_calendar_item : ℕ
undefined_calendar_item = 0xbe00

abbrev pub abstract_calendar_item : ℕ
abstract_calendar_item = 0xbe01

abbrev pub v_calendar1 : ℕ
v_calendar1 = 0xbe02

abbrev pub v_calendar2 : ℕ
v_calendar2 = 0xbe03

abbrev pub undefined_windows_executable : ℕ
undefined_windows_executable = 0xbe80

-- What the macro `ENUM_VALUE` lists: name and value.
unfoldable pub enumerators : List (String × ℕ)
enumerators =
    ("Any", any)
    ∷ ("Undefined", undefined)
    ∷ ("Association", association)
    ∷ ("Script", script)
    ∷ ("Executable", executable)
    ∷ ("Text", text)
    ∷ ("Html", html)
    ∷ ("Dpof", dpof)
    ∷ ("Aiff", aiff)
    ∷ ("Wav", wav)
    ∷ ("Mp3", mp3)
    ∷ ("Avi", avi)
    ∷ ("Mpeg", mpeg)
    ∷ ("Asf", asf)
    ∷ ("UndefinedImage", undefined_image)
    ∷ ("ExifJpeg", exif_jpeg)
    ∷ ("TiffEp", tiff_ep)
    ∷ ("Flashpix", flashpix)
    ∷ ("Bmp", bmp)
    ∷ ("Ciff", ciff)
    ∷ ("Gif", gif)
    ∷ ("Jfif", jfif)
    ∷ ("Pcd", pcd)
    ∷ ("Pict", pict)
    ∷ ("Png", png)
    ∷ ("Tiff", tiff)
    ∷ ("TiffIt", tiff_it)
    ∷ ("Jp2", jp2)
    ∷ ("Jpx", jpx)
    ∷ ("Dng", dng)
    ∷ ("Heif", heif)
    ∷ ("NetworkAssociation", network_association)
    ∷ ("M4a", m4a)
    ∷ ("Artist", artist)
    ∷ ("UndefinedFirmware", undefined_firmware)
    ∷ ("WindowsImageFormat", windows_image_format)
    ∷ ("UndefinedAudio", undefined_audio)
    ∷ ("Wma", wma)
    ∷ ("Ogg", ogg)
    ∷ ("Aac", aac)
    ∷ ("Audible", audible)
    ∷ ("Flac", flac)
    ∷ ("UndefinedVideo", undefined_video)
    ∷ ("Wmv", wmv)
    ∷ ("Mp4", mp4)
    ∷ ("Mp2", mp2)
    ∷ ("_3gp", video_3gp)
    ∷ ("UndefinedCollection", undefined_collection)
    ∷ ("AbstractMultimediaAlbum", abstract_multimedia_album)
    ∷ ("AbstractImageAlbum", abstract_image_album)
    ∷ ("AbstractAudioAlbum", abstract_audio_album)
    ∷ ("AbstractVideoAlbum", abstract_video_album)
    ∷ ("AbstractAVPlaylist", abstract_av_playlist)
    ∷ ("AbstractContactGroup", abstract_contact_group)
    ∷ ("AbstractMessageFolder", abstract_message_folder)
    ∷ ("AbstractChapteredProduction", abstract_chaptered_production)
    ∷ ("AbstractAudioPlaylist", abstract_audio_playlist)
    ∷ ("AbstractVideoPlaylist", abstract_video_playlist)
    ∷ ("AbstractMediacast", abstract_mediacast)
    ∷ ("WplPlaylist", wpl_playlist)
    ∷ ("M3uPlaylist", m3u_playlist)
    ∷ ("MplPlaylist", mpl_playlist)
    ∷ ("AsxPlaylist", asx_playlist)
    ∷ ("PlsPlaylist", pls_playlist)
    ∷ ("UndefinedDocument", undefined_document)
    ∷ ("AbstractDocument", abstract_document)
    ∷ ("XmlDocument", xml_document)
    ∷ ("MicrosoftWordDocument", microsoft_word_document)
    ∷ ("MhtCompiledHtmlDocument", mht_compiled_html_document)
    ∷ ("MicrosoftExcelSpreadsheet", microsoft_excel_spreadsheet)
    ∷ ("MicrosoftPowerPointPresentation", microsoft_power_point_presentation)
    ∷ ("UndefinedMessage", undefined_message)
    ∷ ("AbstractMessage", abstract_message)
    ∷ ("UndefinedContact", undefined_contact)
    ∷ ("AbstractContact", abstract_contact)
    ∷ ("VCard2", v_card2)
    ∷ ("VCard3", v_card3)
    ∷ ("UndefinedCalendarItem", undefined_calendar_item)
    ∷ ("AbstractCalendarItem", abstract_calendar_item)
    ∷ ("VCalendar1", v_calendar1)
    ∷ ("VCalendar2", v_calendar2)
    ∷ ("UndefinedWindowsExecutable", undefined_windows_executable)
    ∷ []
