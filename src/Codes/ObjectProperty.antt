-- ===== src/Codes/ObjectProperty.antt =====
-- mtp/ptp/ObjectProperty.values.h: the enumerators of `ObjectProperty`, each with its 16-bit value.
use Prim.Native.String.{String}
use zune_sync.Base.{ℕ, List, [], ◌∷◌}

abbrev pub buy_flag : ℕ
buy_flag = 0xd901

abbrev pub host_eui64_array : ℕ
host_eui64_array = 0xd920

abbrev pub content_type_uuid : ℕ
content_type_uuid = 0xda97

abbrev pub artist_id : ℕ
artist_id = 0xdab9

abbrev pub album_id : ℕ
album_id = 0xdabb

abbrev pub storage_id : ℕ
storage_id = 0xdc01

abbrev pub object_format : ℕ
object_format = 0xdc02

abbrev pub protection_status : ℕ
protection_status = 0xdc03

abbrev pub object_size : ℕ
object_size = 0xdc04

abbrev pub association_type : ℕ
association_type = 0xdc05

abbrev pub association_desc : ℕ
association_desc = 0xdc06

abbrev pub object_filename : ℕ
object_filename = 0xdc07

abbrev pub date_created : ℕ
date_created = 0xdc08

abbrev pub date_modified : ℕ
date_modified = 0xdc09

abbrev pub keywords : ℕ
keywords = 0xdc0a

abbrev pub parent_object : ℕ
parent_object = 0xdc0b

abbrev pub allowed_folder_contents : ℕ
allowed_folder_contents = 0xdc0c

abbrev pub hidden : ℕ
hidden = 0xdc0d

abbrev pub system_object : ℕ
system_object = 0xdc0e

abbrev pub persistent_unique_object_id : ℕ
persistent_unique_object_id = 0xdc41

abbrev pub sync_id : ℕ
sync_id = 0xdc42

abbrev pub property_bag : ℕ
property_bag = 0xdc43

abbrev pub name : ℕ
name = 0xdc44

abbrev pub created_by : ℕ
created_by = 0xdc45

abbrev pub artist : ℕ
artist = 0xdc46

abbrev pub date_authored : ℕ
date_authored = 0xdc47

abbrev pub description : ℕ
description = 0xdc48

abbrev pub url_reference : ℕ
url_reference = 0xdc49

abbrev pub language_locale : ℕ
language_locale = 0xdc4a

abbrev pub copyright_information : ℕ
copyright_information = 0xdc4b

abbrev pub source : ℕ
source = 0xdc4c

abbrev pub origin_location : ℕ
origin_location = 0xdc4d

abbrev pub date_added : ℕ
date_added = 0xdc4e

abbrev pub non_consumable : ℕ
non_consumable = 0xdc4f

abbrev pub corrupted_non_playable : ℕ
corrupted_non_playable = 0xdc50

abbrev pub producer_serial_number : ℕ
producer_serial_number = 0xdc51

abbrev pub representative_sample_format : ℕ
representative_sample_format = 0xdc81

abbrev pub representative_sample_size : ℕ
representative_sample_size = 0xdc82

abbrev pub representative_sample_height : ℕ
representative_sample_height = 0xdc83

abbrev pub representative_sample_width : ℕ
representative_sample_width = 0xdc84

abbrev pub representative_sample_duration : ℕ
representative_sample_duration = 0xdc85

abbrev pub representative_sample_data : ℕ
representative_sample_data = 0xdc86

abbrev pub width : ℕ
width = 0xdc87

abbrev pub height : ℕ
height = 0xdc88

abbrev pub duration : ℕ
duration = 0xdc89

abbrev pub user_rating : ℕ
user_rating = 0xdc8a

abbrev pub track : ℕ
track = 0xdc8b

abbrev pub genre : ℕ
genre = 0xdc8c

abbrev pub credits : ℕ
credits = 0xdc8d

abbrev pub lyrics : ℕ
lyrics = 0xdc8e

abbrev pub subscription_content_id : ℕ
subscription_content_id = 0xdc8f

abbrev pub produced_by : ℕ
produced_by = 0xdc90

abbrev pub use_count : ℕ
use_count = 0xdc91

abbrev pub skip_count : ℕ
skip_count = 0xdc92

abbrev pub last_accessed : ℕ
last_accessed = 0xdc93

abbrev pub parental_rating : ℕ
parental_rating = 0xdc94

abbrev pub meta_genre : ℕ
meta_genre = 0xdc95

abbrev pub composer : ℕ
composer = 0xdc96

abbrev pub effective_rating : ℕ
effective_rating = 0xdc97

abbrev pub subtitle : ℕ
subtitle = 0xdc98

abbrev pub original_release_date : ℕ
original_release_date = 0xdc99

abbrev pub album_name : ℕ
album_name = 0xdc9a

abbrev pub album_artist : ℕ
album_artist = 0xdc9b

abbrev pub mood : ℕ
mood = 0xdc9c

abbrev pub drm_protection_status : ℕ
drm_protection_status = 0xdc9d

abbrev pub subdescription : ℕ
subdescription = 0xdc9e

abbrev pub is_cropped : ℕ
is_cropped = 0xdcd1

abbrev pub is_colour_corrected : ℕ
is_colour_corrected = 0xdcd2

abbrev pub image_bit_depth : ℕ
image_bit_depth = 0xdcd3

abbrev pub f_number : ℕ
f_number = 0xdcd4

abbrev pub exposure_time : ℕ
exposure_time = 0xdcd5

abbrev pub exposure_index : ℕ
exposure_index = 0xdcd6

abbrev pub total_bitrate : ℕ
total_bitrate = 0xde91

abbrev pub bitrate_type : ℕ
bitrate_type = 0xde92

abbrev pub sample_rate : ℕ
sample_rate = 0xde93

abbrev pub number_of_channels : ℕ
number_of_channels = 0xde94

abbrev pub audio_bit_depth : ℕ
audio_bit_depth = 0xde95

abbrev pub block_alignment : ℕ
block_alignment = 0xde96

abbrev pub scan_type : ℕ
scan_type = 0xde97

abbrev pub colour_range : ℕ
colour_range = 0xde98

abbrev pub audio_wave_codec : ℕ
audio_wave_codec = 0xde99

abbrev pub audio_bitrate : ℕ
audio_bitrate = 0xde9a

abbrev pub video_four_cc_codec : ℕ
video_four_cc_codec = 0xde9b

abbrev pub video_bitrate : ℕ
video_bitrate = 0xde9c

abbrev pub frames_per_milliseconds : ℕ
frames_per_milliseconds = 0xde9d

abbrev pub keyframe_distance : ℕ
keyframe_distance = 0xde9e

abbrev pub buffer_size : ℕ
buffer_size = 0xde9f

abbrev pub encoding_quality : ℕ
encoding_quality = 0xdea0

abbrev pub encoding_profile : ℕ
encoding_profile = 0xdea1

abbrev pub display_name : ℕ
display_name = 0xdce0

abbrev pub body_text : ℕ
body_text = 0xdce1

abbrev pub subject : ℕ
subject = 0xdce2

abbrev pub priority : ℕ
priority = 0xdce3

abbrev pub owner : ℕ
owner = 0xdd5d

abbrev pub editor : ℕ
editor = 0xdd5e

abbrev pub web_master : ℕ
web_master = 0xdd5f

abbrev pub url_source : ℕ
url_source = 0xdd60

abbrev pub url_destination : ℕ
url_destination = 0xdd61

abbrev pub time_bookmark : ℕ
time_bookmark = 0xdd62

abbrev pub object_bookmark : ℕ
object_bookmark = 0xdd63

abbrev pub byte_bookmark : ℕ
byte_bookmark = 0xdd64

abbrev pub last_build_date : ℕ
last_build_date = 0xdd70

abbrev pub time_to_live : ℕ
time_to_live = 0xdd71

abbrev pub media_guid : ℕ
media_guid = 0xdd72

abbrev pub all : ℕ
all = 0xffff

-- What the macro `ENUM_VALUE` lists: name and value.
unfoldable pub enumerators : List (String × ℕ)
enumerators =
    ("BuyFlag", buy_flag)
    ∷ ("HostEUI64Array", host_eui64_array)
    ∷ ("ContentTypeUUID", content_type_uuid)
    ∷ ("ArtistId", artist_id)
    ∷ ("AlbumId", album_id)
    ∷ ("StorageId", storage_id)
    ∷ ("ObjectFormat", object_format)
    ∷ ("ProtectionStatus", protection_status)
    ∷ ("ObjectSize", object_size)
    ∷ ("AssociationType", association_type)
    ∷ ("AssociationDesc", association_desc)
    ∷ ("ObjectFilename", object_filename)
    ∷ ("DateCreated", date_created)
    ∷ ("DateModified", date_modified)
    ∷ ("Keywords", keywords)
    ∷ ("ParentObject", parent_object)
    ∷ ("AllowedFolderContents", allowed_folder_contents)
    ∷ ("Hidden", hidden)
    ∷ ("SystemObject", system_object)
    ∷ ("PersistentUniqueObjectId", persistent_unique_object_id)
    ∷ ("SyncId", sync_id)
    ∷ ("PropertyBag", property_bag)
    ∷ ("Name", name)
    ∷ ("CreatedBy", created_by)
    ∷ ("Artist", artist)
    ∷ ("DateAuthored", date_authored)
    ∷ ("Description", description)
    ∷ ("UrlReference", url_reference)
    ∷ ("LanguageLocale", language_locale)
    ∷ ("CopyrightInformation", copyright_information)
    ∷ ("Source", source)
    ∷ ("OriginLocation", origin_location)
    ∷ ("DateAdded", date_added)
    ∷ ("NonConsumable", non_consumable)
    ∷ ("CorruptedNonPlayable", corrupted_non_playable)
    ∷ ("ProducerSerialNumber", producer_serial_number)
    ∷ ("RepresentativeSampleFormat", representative_sample_format)
    ∷ ("RepresentativeSampleSize", representative_sample_size)
    ∷ ("RepresentativeSampleHeight", representative_sample_height)
    ∷ ("RepresentativeSampleWidth", representative_sample_width)
    ∷ ("RepresentativeSampleDuration", representative_sample_duration)
    ∷ ("RepresentativeSampleData", representative_sample_data)
    ∷ ("Width", width)
    ∷ ("Height", height)
    ∷ ("Duration", duration)
    ∷ ("UserRating", user_rating)
    ∷ ("Track", track)
    ∷ ("Genre", genre)
    ∷ ("Credits", credits)
    ∷ ("Lyrics", lyrics)
    ∷ ("SubscriptionContentId", subscription_content_id)
    ∷ ("ProducedBy", produced_by)
    ∷ ("UseCount", use_count)
    ∷ ("SkipCount", skip_count)
    ∷ ("LastAccessed", last_accessed)
    ∷ ("ParentalRating", parental_rating)
    ∷ ("MetaGenre", meta_genre)
    ∷ ("Composer", composer)
    ∷ ("EffectiveRating", effective_rating)
    ∷ ("Subtitle", subtitle)
    ∷ ("OriginalReleaseDate", original_release_date)
    ∷ ("AlbumName", album_name)
    ∷ ("AlbumArtist", album_artist)
    ∷ ("Mood", mood)
    ∷ ("DrmProtectionStatus", drm_protection_status)
    ∷ ("Subdescription", subdescription)
    ∷ ("IsCropped", is_cropped)
    ∷ ("IsColourCorrected", is_colour_corrected)
    ∷ ("ImageBitDepth", image_bit_depth)
    ∷ ("FNumber", f_number)
    ∷ ("ExposureTime", exposure_time)
    ∷ ("ExposureIndex", exposure_index)
    ∷ ("TotalBitrate", total_bitrate)
    ∷ ("BitrateType", bitrate_type)
    ∷ ("SampleRate", sample_rate)
    ∷ ("NumberOfChannels", number_of_channels)
    ∷ ("AudioBitDepth", audio_bit_depth)
    ∷ ("BlockAlignment", block_alignment)
    ∷ ("ScanType", scan_type)
    ∷ ("ColourRange", colour_range)
    ∷ ("AudioWaveCodec", audio_wave_codec)
    ∷ ("AudioBitrate", audio_bitrate)
    ∷ ("VideoFourCCCodec", video_four_cc_codec)
    ∷ ("VideoBitrate", video_bitrate)
    ∷ ("FramesPerMilliseconds", frames_per_milliseconds)
    ∷ ("KeyframeDistance", keyframe_distance)
    ∷ ("BufferSize", buffer_size)
    ∷ ("EncodingQuality", encoding_quality)
    ∷ ("EncodingProfile", encoding_profile)
    ∷ ("DisplayName", display_name)
    ∷ ("BodyText", body_text)
    ∷ ("Subject", subject)
    ∷ ("Priority", priority)
    ∷ ("Owner", owner)
    ∷ ("Editor", editor)
    ∷ ("WebMaster", web_master)
    ∷ ("UrlSource", url_source)
    ∷ ("UrlDestination", url_destination)
    ∷ ("TimeBookmark", time_bookmark)
    ∷ ("ObjectBookmark", object_bookmark)
    ∷ ("ByteBookmark", byte_bookmark)
    ∷ ("LastBuildDate", last_build_date)
    ∷ ("TimeToLive", time_to_live)
    ∷ ("MediaGUID", media_guid)
    ∷ ("All", all)
    ∷ []
